-- ===== src/Vault/Binding.antt =====
-- The Merkle root of sentinel/vault.py binds the leaves, given their number.
use soc2_sentinel.Base.{
  ℕ, zero, suc, ◌≤◌, ◌<>◌, String, ◌≡◌, ◌≢◌, Bool-cases, str_eq, str_eq_iff, refl, sym, ap, ◌∙◌,
  ◌⊎◌, List, [], ◌∷◌, length, All, arith, inl, inr,
}
use Prim.Native.String.{count as size}
use text.Mathlib.TextLemmas.{append_inj}
use soc2_sentinel.Vault.{next_level, build_levels, build_tree}
use soc2_sentinel.Vault.Rounds.{length-next_level_le}

-- All texts of the list have that size.
abbrev pub AreSized : ℕ → List String → Type 0
AreSized n nodes = All (λ node. size node ≡ n) nodes

-- The texts that a round hashes: each node with its neighbour, and a last one without a neighbour twice.
pub data Paired : List String → String → Type 0 where
  pair : {left right : String} {nodes : List String} → Paired (left ∷ right ∷ nodes) (left <> right)
  lone : {node : String} → Paired (node ∷ []) (node <> node)
  later :
      {left right text : String} {nodes : List String}
      → Paired nodes text
      → Paired (left ∷ right ∷ nodes) text

-- The texts that are hashed on the way to the root, in all rounds.
pub data Hashed (sha256_hex : String → String) : List String → String → Type 0 where
  in_round :
      {left right text : String} {nodes : List String}
      → Paired (left ∷ right ∷ nodes) text
      → Hashed sha256_hex (left ∷ right ∷ nodes) text
  in_later_round :
      {left right text : String} {nodes : List String}
      → Hashed sha256_hex (next_level sha256_hex (left ∷ right ∷ nodes)) text
      → Hashed sha256_hex (left ∷ right ∷ nodes) text

-- Two different texts with one digest, one of each kind.
pub record CollisionOf (sha256_hex : String → String) (P Q : String → Type 0) : Type 0 where
  pub left : String
  pub right : String
  pub is_left : P left
  pub is_right : Q right
  pub differ : left ≢ right
  pub collide : sha256_hex left ≡ sha256_hex right

-- Two trees hash different texts to one digest.
abbrev pub TreesCollide : (String → String) → List String → List String → Type 0
TreesCollide sha256_hex xs ys = CollisionOf sha256_hex (Hashed sha256_hex xs) (Hashed sha256_hex ys)

head_eq : {x y : String} {xs ys : List String} → (x ∷ xs) ≡ (y ∷ ys) → x ≡ y
head_eq h = cc

tail_eq : {x y : String} {xs ys : List String} → (x ∷ xs) ≡ (y ∷ ys) → xs ≡ ys
tail_eq h = cc

CollisionOf-map :
    (sha256_hex : String → String) {P Q P' Q' : String → Type 0}
    → ((text : String) → P text → P' text)
    → ((text : String) → Q text → Q' text)
    → CollisionOf sha256_hex P Q
    → CollisionOf sha256_hex P' Q'
CollisionOf-map sha256_hex f g c = record {
  left = c.left;
  right = c.right;
  is_left = f c.left c.is_left;
  is_right = g c.right c.is_right;
  differ = c.differ;
  collide = c.collide;
}

next_bound :
    (sha256_hex : String → String) (x x' : String) (xs : List String) (m : ℕ)
    → length (x ∷ x' ∷ xs) ≤ suc m
    → length (next_level sha256_hex (x ∷ x' ∷ xs)) ≤ m
unfolding next_level
next_bound sha256_hex x x' xs m b = omega (arith, b, length-next_level_le sha256_hex xs)

module _ (sha256_hex : String → String) (n : ℕ)
    (digest_size : (s : String) → size (sha256_hex s) ≡ n) where
  next_level-AreSized : (nodes : List String) → AreSized n (next_level sha256_hex nodes)
  unfolding next_level
  next_level-AreSized [] = tt
  next_level-AreSized (left ∷ []) = (digest_size (left <> left), tt)
  next_level-AreSized (left ∷ right ∷ nodes) =
      (digest_size (left <> right), next_level-AreSized nodes)

  pair-binds :
      (P Q : String → Type 0) (a b c d : String)
      → P (a <> b)
      → Q (c <> d)
      → size a ≡ n
      → size c ≡ n
      → sha256_hex (a <> b) ≡ sha256_hex (c <> d)
      → ((a ≡ c) × (b ≡ d)) ⊎ CollisionOf sha256_hex P Q
  pair-binds P Q a b c d p q h k e = elim (Bool-cases (str_eq (a <> b) (c <> d))) [
    | inl same ↦ inl (append_inj ((str_eq_iff (a <> b) (c <> d)).0 same) (ground (arith, h, k)))
    | inr other ↦ inr (record {
      left = a <> b;
      right = c <> d;
      is_left = p;
      is_right = q;
      differ = λ eq. ground (arith, other, str_eq_iff (a <> b) (c <> d), eq);
      collide = e;
    })
  ]

  next_level-binds :
      (xs ys : List String)
      → AreSized n xs
      → AreSized n ys
      → length xs ≡ length ys
      → next_level sha256_hex xs ≡ next_level sha256_hex ys
      → (xs ≡ ys) ⊎ CollisionOf sha256_hex (Paired xs) (Paired ys)
  unfolding next_level
  next_level-binds [] [] hx hy e h = inl refl
  next_level-binds [] (y ∷ ys) hx hy e h = absurd (omega (arith, e))
  next_level-binds (x ∷ xs) [] hx hy e h = absurd (omega (arith, e))
  next_level-binds (x ∷ []) (y ∷ []) (hx, _) (hy, _) e h =
      elim (pair-binds (Paired (x ∷ [])) (Paired (y ∷ [])) x x y y lone lone hx hy (head_eq h)) [
        | inl (same, _) ↦ inl (ap (λ z. z ∷ []) same)
        | inr collision ↦ inr collision
      ]
  next_level-binds (x ∷ []) (y ∷ y' ∷ ys) hx hy e h = absurd (omega (arith, e))
  next_level-binds (x ∷ x' ∷ xs) (y ∷ []) hx hy e h = absurd (omega (arith, e))
  next_level-binds (x ∷ x' ∷ xs) (y ∷ y' ∷ ys) (hx, (hx', hxs)) (hy, (hy', hys)) e h =
      elim (pair-binds (Paired (x ∷ x' ∷ xs)) (Paired (y ∷ y' ∷ ys)) x x' y y' pair pair hx hy
        (head_eq h)) [
          | inl (first, second) ↦
              elim (next_level-binds xs ys hxs hys (omega (arith, e)) (tail_eq h)) [
                | inl rest ↦ inl cc
                | inr collision ↦
                    inr (CollisionOf-map sha256_hex (λ _. later) (λ _. later) collision)
              ]
          | inr collision ↦ inr collision
        ]

  length-next_level_same :
      (xs ys : List String)
      → length xs ≡ length ys
      → length (next_level sha256_hex xs) ≡ length (next_level sha256_hex ys)
  unfolding next_level
  length-next_level_same [] [] e = refl
  length-next_level_same [] (y ∷ ys) e = absurd (omega (arith, e))
  length-next_level_same (x ∷ xs) [] e = absurd (omega (arith, e))
  length-next_level_same (x ∷ []) (y ∷ []) e = refl
  length-next_level_same (x ∷ []) (y ∷ y' ∷ ys) e = absurd (omega (arith, e))
  length-next_level_same (x ∷ x' ∷ xs) (y ∷ []) e = absurd (omega (arith, e))
  length-next_level_same (x ∷ x' ∷ xs) (y ∷ y' ∷ ys) e =
      ap suc (length-next_level_same xs ys (omega (arith, e)))

  build_levels-binds :
      (m : ℕ) (xs ys : List String)
      → AreSized n xs
      → AreSized n ys
      → length xs ≡ length ys
      → length xs ≤ m
      → build_levels sha256_hex m xs ≡ build_levels sha256_hex m ys
      → (xs ≡ ys) ⊎ TreesCollide sha256_hex xs ys
  unfolding build_levels
  build_levels-binds m [] [] hx hy e b h = inl refl
  build_levels-binds m [] (y ∷ ys) hx hy e b h = absurd (omega (arith, e))
  build_levels-binds m (x ∷ xs) [] hx hy e b h = absurd (omega (arith, e))
  build_levels-binds m (x ∷ []) (y ∷ []) hx hy e b h = inl (ap (λ z. z ∷ []) h)
  build_levels-binds m (x ∷ []) (y ∷ y' ∷ ys) hx hy e b h = absurd (omega (arith, e))
  build_levels-binds m (x ∷ x' ∷ xs) (y ∷ []) hx hy e b h = absurd (omega (arith, e))
  build_levels-binds zero (x ∷ x' ∷ xs) (y ∷ y' ∷ ys) hx hy e b h = absurd (omega (arith, b))
  build_levels-binds (suc m) (x ∷ x' ∷ xs) (y ∷ y' ∷ ys) hx hy e b h =
      let left = x ∷ x' ∷ xs in
      let right = y ∷ y' ∷ ys in
      elim (build_levels-binds m (next_level sha256_hex left) (next_level sha256_hex right)
        (next_level-AreSized left) (next_level-AreSized right) (length-next_level_same left right e)
        (next_bound sha256_hex x x' xs m b) h) [
          | inl same ↦ elim (next_level-binds left right hx hy e same) [
            | inl equal ↦ inl equal
            | inr collision ↦
                inr (CollisionOf-map sha256_hex (λ _. in_round) (λ _. in_round) collision)
          ]
          | inr collision ↦
              inr (CollisionOf-map sha256_hex (λ _. in_later_round) (λ _. in_later_round) collision)
        ]

  -- If digests and leaves all have one size, two lists of equally many leaves with the same root are
  -- the same list, or a text that is hashed on the way from the one list to the root and a different
  -- text that is hashed on the way from the other one have the same digest.
  pub build_tree-binds :
      (xs ys : List String)
      → AreSized n xs
      → AreSized n ys
      → length xs ≡ length ys
      → build_tree sha256_hex xs ≡ build_tree sha256_hex ys
      → (xs ≡ ys) ⊎ TreesCollide sha256_hex xs ys
  unfolding build_tree
  build_tree-binds xs ys hx hy e h =
      build_levels-binds (length xs) xs ys hx hy e (omega arith)
        (h ∙ ap (λ fuel. build_levels sha256_hex fuel ys) (sym e))
