-- ===== src/Base/Lists.antt =====
-- Lists measured and indexed by native numbers, under the library's names.
use Prim.Native.Nat.{ℕ, zero, suc, ◌+◌, ◌-◌, ◌≤◌}
use mathlib.Core.Path.{◌≡◌, refl, sym, ap, ◌∙◌}
use mathlib.Core.Logic.{inl, inr}
use mathlib.Core.Bool.{Bool}
use mathlib.Core.List.{List, [], ◌∷◌, ◌++◌, append-nil, append_assoc}
use native.Mathlib.Omega.{arith}
use soc2_sentinel.Base.Tests.{leb, leb→le, Bool-cases, if◌then◌else◌}

module _ {ℓ} {A : Type ℓ} where
  abbrev pub length : List A → ℕ
  length [] = 0
  length (x ∷ xs) = suc (length xs)

  abbrev pub take : ℕ → List A → List A
  take zero xs = []
  take (suc n) [] = []
  take (suc n) (x ∷ xs) = x ∷ take n xs

  pub length-append : (xs ys : List A) → length (xs ++ ys) ≡ length xs + length ys
  length-append [] ys = omega arith
  length-append (x ∷ xs) ys = omega (arith, length-append xs ys)

  pub length-take_le : (n : ℕ) (xs : List A) → length (take n xs) ≤ n
  length-take_le zero xs = omega arith
  length-take_le (suc n) [] = omega arith
  length-take_le (suc n) (x ∷ xs) = omega (arith, length-take_le n xs)

  -- `[x for x in xs if p(x)]`
  abbrev pub keep : (A → Bool) → List A → List A
  keep p [] = []
  keep p (x ∷ xs) = let rest = keep p xs in if p x then x ∷ rest else rest

  -- `sum(1 for x in xs if p(x))`
  abbrev pub count : (A → Bool) → List A → ℕ
  count p [] = 0
  count p (x ∷ xs) = (if p x then 1 else 0) + count p xs

  abbrev pub All {κ} : (A → Type κ) → List A → Type κ
  All P [] = Unit
  All P (x ∷ xs) = P x × All P xs

  abbrev pub drop : ℕ → List A → List A
  drop zero xs = xs
  drop (suc n) [] = []
  drop (suc n) (x ∷ xs) = drop n xs

  abbrev pub reverse : List A → List A
  reverse [] = []
  reverse (x ∷ xs) = reverse xs ++ (x ∷ [])

  pub length-reverse : (xs : List A) → length (reverse xs) ≡ length xs
  length-reverse [] = refl
  length-reverse (x ∷ xs) = omega (arith, length-append (reverse xs) (x ∷ []), length-reverse xs)

  pub take-append : (n : ℕ) (xs ys : List A) → n ≤ length xs → take n (xs ++ ys) ≡ take n xs
  take-append zero xs ys h = refl
  take-append (suc n) [] ys h = absurd (omega arith)
  take-append (suc n) (x ∷ xs) ys h = ap (λ zs. x ∷ zs) (take-append n xs ys (omega arith))

  pub take-all : (n : ℕ) (xs : List A) → length xs ≤ n → take n xs ≡ xs
  take-all zero [] h = refl
  take-all zero (x ∷ xs) h = absurd (omega arith)
  take-all (suc n) [] h = refl
  take-all (suc n) (x ∷ xs) h = ap (λ zs. x ∷ zs) (take-all n xs (omega arith))

  pub take-take : (n : ℕ) (xs : List A) (x : A) → take n (x ∷ take n xs) ≡ take n (x ∷ xs)
  take-take zero xs x = refl
  take-take (suc n) [] x = refl
  take-take (suc n) (y ∷ ys) x = ap (λ zs. x ∷ zs) (take-take n ys y)

  pub take-nil : (n : ℕ) → take n [] ≡ []
  take-nil zero = refl
  take-nil (suc n) = refl

  drop-nil : (n : ℕ) → drop n [] ≡ []
  drop-nil zero = refl
  drop-nil (suc n) = refl

  -- The last `n` of a list, newest first.
  pub reverse-drop : (n : ℕ) (xs : List A) → reverse (drop (length xs - n) xs) ≡ take n (reverse xs)
  reverse-drop n [] = ap reverse (drop-nil (0 - n)) ∙ sym (take-nil n)
  reverse-drop n (x ∷ xs) = elim (Bool-cases (leb n (length xs))) [
    | inl h ↦
        ap (λ k. reverse (drop k (x ∷ xs))) {x = suc (length xs) - n} {y = suc (length xs - n)}
          (omega (arith, leb→le n (length xs) h))
        ∙ reverse-drop n xs
        ∙ sym (
            take-append n (reverse xs) (x ∷ [])
              (omega (arith, leb→le n (length xs) h, length-reverse xs)))
    | inr h ↦
        ap (λ k. reverse (drop k (x ∷ xs))) {x = suc (length xs) - n} {y = 0} (ground (arith, h))
        ∙ sym (take-all n (reverse xs ++ (x ∷ [])) (ground (arith, h, length-reverse (x ∷ xs))))
  ]

  pub reverse-append : (xs ys : List A) → reverse (xs ++ ys) ≡ reverse ys ++ reverse xs
  reverse-append [] ys = sym (append-nil (reverse ys))
  reverse-append (x ∷ xs) ys =
      ap (λ zs. zs ++ (x ∷ [])) (reverse-append xs ys)
      ∙ append_assoc (reverse ys) (reverse xs) (x ∷ [])

  pub keep-append : (p : A → Bool) (xs ys : List A) → keep p (xs ++ ys) ≡ keep p xs ++ keep p ys
  keep-append p [] ys = refl
  keep-append p (x ∷ xs) ys = ground (arith, keep-append p xs ys)

  pub reverse-keep : (p : A → Bool) (xs : List A) → reverse (keep p xs) ≡ keep p (reverse xs)
  reverse-keep p [] = refl
  reverse-keep p (x ∷ xs) = elim (Bool-cases (p x)) [
    | inl h ↦ rw (h, keep-append p (reverse xs) (x ∷ []), reverse-keep p xs, h) refl
    | inr h ↦
        rw
          (
            h,
            keep-append p (reverse xs) (x ∷ []),
            reverse-keep p xs,
            h,
            append-nil (keep p (reverse xs)),
          )
          refl
  ]

  pub length-drop : (n : ℕ) (xs : List A) → length (drop n xs) ≡ length xs - n
  length-drop zero xs = omega arith
  length-drop (suc n) [] = omega arith
  length-drop (suc n) (x ∷ xs) = omega (arith, length-drop n xs)

  pub take-append-drop : (n : ℕ) (xs : List A) → take n xs ++ drop n xs ≡ xs
  take-append-drop zero xs = refl
  take-append-drop (suc n) [] = refl
  take-append-drop (suc n) (x ∷ xs) = ap (λ ys. x ∷ ys) (take-append-drop n xs)

  -- The lists of a list, one after the other.
  abbrev pub flatten : List (List A) → List A
  flatten [] = []
  flatten (xs ∷ xss) = xs ++ flatten xss

  pub take-append_self : (xs ys : List A) (n : ℕ) → length xs ≡ n → take n (xs ++ ys) ≡ xs
  take-append_self xs ys n h =
      take-append n xs ys (omega (arith, h)) ∙ take-all n xs (omega (arith, h))

  pub drop-append : (xs ys : List A) (n m : ℕ) → length xs ≡ n → drop (n + m) (xs ++ ys) ≡ drop m ys
  drop-append [] ys n m h = ap (λ k. drop k ys) {x = n + m} {y = m} (omega (arith, h))
  drop-append (x ∷ xs) ys n m h =
      ap (λ k. drop k (x ∷ (xs ++ ys))) {x = n + m} {y = suc (length xs + m)} (omega (arith, h))
      ∙ drop-append xs ys (length xs) m refl
