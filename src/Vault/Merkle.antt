-- ===== src/Vault/Merkle.antt =====
-- `MerkleTree` of sentinel/vault.py.
use soc2_sentinel.Base.{ℕ, zero, suc, String, le_text, ◌<>◌, List, [], ◌∷◌, length, if◌then◌else◌}

-- `"0" * 64`
abbrev pub zeros : String
zeros = "0000000000000000000000000000000000000000000000000000000000000000"

abbrev insert : String → List String → List String
insert x [] = x ∷ []
insert x (y ∷ ys) = let rest = insert x ys in if le_text x y then x ∷ y ∷ ys else y ∷ rest

-- `sorted(texts)`
unfoldable pub sorted : List String → List String
sorted [] = []
sorted (x ∷ xs) = insert x (sorted xs)

module _ (sha256_hex : String → String) where
  -- One round of the loop: a last node without a partner is paired with itself.
  unfoldable pub next_level : List String → List String
  next_level [] = []
  next_level (left ∷ []) = sha256_hex (left <> left) ∷ []
  next_level (left ∷ right ∷ nodes) = sha256_hex (left <> right) ∷ next_level nodes

  -- The fuel bounds the rounds. Each round leaves fewer nodes, so as much fuel as nodes is enough.
  unfoldable pub build_levels : ℕ → List String → String
  unfolding next_level
  build_levels fuel [] = zeros
  build_levels fuel (root ∷ []) = root
  build_levels zero (left ∷ right ∷ nodes) = zeros
  build_levels (suc fuel) (left ∷ right ∷ nodes) =
      build_levels fuel (next_level (left ∷ right ∷ nodes))

  unfoldable pub build_tree : List String → String
  unfolding build_levels
  build_tree nodes = build_levels (length nodes) nodes

  -- `MerkleTree(leaf_hashes).root`
  unfoldable pub merkle_root : List String → String
  unfolding sorted build_tree
  merkle_root [] = build_tree (zeros ∷ [])
  merkle_root (leaf ∷ leaves) = build_tree (sorted (leaf ∷ leaves))
