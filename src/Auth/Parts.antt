-- ===== src/Auth/Parts.antt =====
-- The parts of a token are found again.
use soc2_sentinel.Base.{
  Codes, ℕ, zero, suc, ◌+◌, ◌-◌, ◌%◌, ◌<◌, ◌≡◌, refl, ap, ◌∙◌, true, false, [], ◌∷◌, ◌++◌, some,
  ◌==◌, arith, Bool-cases, Option-cases, inl, inr, length, All,
}
use soc2_sentinel.Auth.{without_prefix, split_once, repeated, rstrip, padded, eq_codes}

pub without_prefix-append : (p text : Codes) → without_prefix p (p ++ text) ≡ some text
unfolding without_prefix
without_prefix-append [] text = refl
without_prefix-append (c ∷ p) text = ground (arith, without_prefix-append p text)

-- No code is that one.
abbrev pub Lacks : ℕ → Codes → Type 0
Lacks c = All (λ d. (d == c) ≡ false)

pub split_once-append :
    (c : ℕ) (xs text : Codes) → Lacks c xs → split_once c (xs ++ (c ∷ text)) ≡ some (xs, text)
unfolding split_once
split_once-append c [] text h = ground arith
split_once-append c (x ∷ xs) text (h, hs) = ground (arith, h, split_once-append c xs text hs)

rstrip-repeated : (c n : ℕ) → rstrip c (repeated n c) ≡ []
unfolding rstrip
rstrip-repeated c zero = refl
rstrip-repeated c (suc n) = ground (arith, rstrip-repeated c n)

pub rstrip-append : (c n : ℕ) (xs : Codes) → Lacks c xs → rstrip c (xs ++ repeated n c) ≡ xs
unfolding rstrip
rstrip-append c n [] h = rstrip-repeated c n
rstrip-append c n (x ∷ xs) (h, hs) = ground (arith, h, rstrip-append c n xs hs)

padding : (l k : ℕ) → k < 4 → (l + k) % 4 ≡ 0 → (4 - l % 4) % 4 ≡ k
padding l k h e = omega (arith, h, e)

-- The padding that was stripped is put back.
pub padded-rstrip :
    (n : ℕ) (xs : Codes)
    → Lacks b'=' xs
    → n < 4
    → (length xs + n) % 4 ≡ 0
    → padded (rstrip b'=' (xs ++ repeated n b'=')) ≡ xs ++ repeated n b'='
unfolding padded
padded-rstrip n xs h less e =
    ap padded (rstrip-append b'=' n xs h)
    ∙ ap (λ k. xs ++ repeated k b'=') (padding (length xs) n less e)

pub eq_codes_refl : (cs : Codes) → eq_codes cs cs ≡ true
unfolding eq_codes
eq_codes_refl [] = refl
eq_codes_refl (c ∷ cs) = ground (arith, eq_codes_refl cs)

pub eq_codes-eq : (cs ds : Codes) → eq_codes cs ds ≡ true → cs ≡ ds
unfolding eq_codes
eq_codes-eq [] [] h = refl
eq_codes-eq [] (d ∷ ds) h = ground (arith, h)
eq_codes-eq (c ∷ cs) [] h = ground (arith, h)
eq_codes-eq (c ∷ cs) (d ∷ ds) h = ground (arith, h, eq_codes-eq cs ds)

pub without_prefix-eq : (p text rest : Codes) → without_prefix p text ≡ some rest → text ≡ p ++ rest
unfolding without_prefix
without_prefix-eq [] text rest h = ground (arith, h)
without_prefix-eq (c ∷ p) [] rest h = ground (arith, h)
without_prefix-eq (c ∷ p) (d ∷ text) rest h = ground (arith, h, without_prefix-eq p text rest)

pub split_once-eq :
    (c : ℕ) (text xs ys : Codes) → split_once c text ≡ some (xs, ys) → text ≡ xs ++ (c ∷ ys)
unfolding split_once
split_once-eq c [] xs ys h = ground (arith, h)
split_once-eq c (d ∷ text) xs ys h = elim (Bool-cases (d == c)) [
  | inl e ↦ ground (arith, e, h)
  | inr e ↦ elim (Option-cases (split_once c text)) [
    | inl n ↦ ground (arith, e, n, h)
    | inr (parts, s) ↦ ground (arith, e, s, h, split_once-eq c text parts.0 parts.1 s)
  ]
]
