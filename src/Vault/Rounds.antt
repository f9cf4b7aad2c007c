-- ===== src/Vault/Rounds.antt =====
-- The rounds of `_build_tree` in sentinel/vault.py: fuel, and what the root says of the leaves.
use soc2_sentinel.Base.{
  ℕ, zero, suc, ◌≤◌, ◌<>◌, String, ◌≡◌, ◌≢◌, refl, sym, ap, ◌∙◌, ◌⊎◌, List, [], ◌∷◌, length, str_eq,
  str_eq_iff, Bool-cases, arith, inl, inr,
}
use soc2_sentinel.Vault.{next_level, build_levels, build_tree}

-- Two different texts with one digest.
pub record Collision (sha256_hex : String → String) : Type 0 where
  pub left : String
  pub right : String
  pub differ : left ≢ right
  pub collide : sha256_hex left ≡ sha256_hex right

module _ (sha256_hex : String → String) where
  -- Texts with one digest are the same, or they collide.
  pub digest-cases : (s t : String) → sha256_hex s ≡ sha256_hex t → (s ≡ t) ⊎ Collision sha256_hex
  digest-cases s t h = elim (Bool-cases (str_eq s t)) [
    | inl e ↦ inl ((str_eq_iff s t).0 e)
    | inr e ↦ inr (record {
      left = s;
      right = t;
      differ = λ p. ground (arith, e, str_eq_iff s t, p);
      collide = h;
    })
  ]

  pub length-next_level_le :
      (nodes : List String) → length (next_level sha256_hex nodes) ≤ length nodes
  unfolding next_level
  length-next_level_le [] = omega arith
  length-next_level_le (left ∷ []) = omega arith
  length-next_level_le (left ∷ right ∷ nodes) = omega (arith, length-next_level_le nodes)

  build_levels_enough :
      (m n : ℕ) (nodes : List String)
      → length nodes ≤ m
      → length nodes ≤ n
      → build_levels sha256_hex m nodes ≡ build_levels sha256_hex n nodes
  unfolding build_levels next_level
  build_levels_enough m n [] h k = refl
  build_levels_enough m n (root ∷ []) h k = refl
  build_levels_enough zero n (left ∷ right ∷ nodes) h k = absurd (omega (arith, h))
  build_levels_enough (suc m) zero (left ∷ right ∷ nodes) h k = absurd (omega (arith, k))
  build_levels_enough (suc m) (suc n) (left ∷ right ∷ nodes) h k =
      build_levels_enough m n (next_level sha256_hex (left ∷ right ∷ nodes))
        (omega (arith, length-next_level_le nodes, h))
        (omega (arith, length-next_level_le nodes, k))

  -- The tree over two nodes or more is the tree over the next level, as in the recursive code: the
  -- fuel never runs out.
  pub build_tree-step :
      (left right : String) (nodes : List String)
      → build_tree sha256_hex (left ∷ right ∷ nodes)
        ≡ build_tree sha256_hex (next_level sha256_hex (left ∷ right ∷ nodes))
  unfolding build_tree build_levels next_level
  build_tree-step left right nodes =
      build_levels_enough (suc (length nodes)) (suc (length (next_level sha256_hex nodes)))
        (next_level sha256_hex (left ∷ right ∷ nodes)) (omega (arith, length-next_level_le nodes))
        (omega arith)

  -- The pairs of a level, one after another, before its last nodes.
  abbrev pub paired : List (String × String) → List String → List String
  paired [] last = last
  paired ((left, right) ∷ pairs) last = left ∷ right ∷ paired pairs last

  next_level-paired :
      (pairs : List (String × String)) (leaf : String)
      → next_level sha256_hex (paired pairs (leaf ∷ []))
        ≡ next_level sha256_hex (paired pairs (leaf ∷ leaf ∷ []))
  unfolding next_level
  next_level-paired [] leaf = refl
  next_level-paired ((left, right) ∷ pairs) leaf =
      ap (λ nodes. sha256_hex (left <> right) ∷ nodes) (next_level-paired pairs leaf)

  -- An odd number of leaves, three or more, gives the same root with the last leaf once more.
  pub build_tree_repeated :
      (pairs : List (String × String)) (left right leaf : String)
      → build_tree sha256_hex (paired ((left, right) ∷ pairs) (leaf ∷ leaf ∷ []))
        ≡ build_tree sha256_hex (paired ((left, right) ∷ pairs) (leaf ∷ []))
  build_tree_repeated pairs left right leaf =
      build_tree-step left right (paired pairs (leaf ∷ leaf ∷ []))
      ∙ ap (build_tree sha256_hex) (sym (next_level-paired ((left, right) ∷ pairs) leaf))
      ∙ sym (build_tree-step left right (paired pairs (leaf ∷ [])))
