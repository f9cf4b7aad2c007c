-- ===== src/Vault/Linked.antt =====
-- What `verify_chain` accepts, without its messages.
use soc2_sentinel.Base.{
  ℕ, suc, String, ◌≡◌, refl, ap, ◌∙◌, ◌↔◌, true, List, [], ◌∷◌, ◌++◌, str_eq_iff, Option, none,
  some, arith, inl, inr,
}
use soc2_sentinel.Base.Int.{ℤ, pos, negsuc, eqb_ℤ}
use soc2_sentinel.Python.{ok, Py-cases}
use soc2_sentinel.Vault.{
  EvidenceBlock, World, disk_errors, block_errors, recomputed, disk_root_of, check_blocks,
}

eqb-pos_iff : (i : ℤ) (n : ℕ) → (eqb_ℤ i (pos n) ≡ true) ↔ (i ≡ pos n)
eqb-pos_iff (pos m) n = ground arith
eqb-pos_iff (negsuc m) n = ground arith

append-nil_iff : {A : Type 0} (xs ys : List A) → (xs ++ ys ≡ []) ↔ ((xs ≡ []) × (ys ≡ []))
append-nil_iff [] ys = ground arith
append-nil_iff (x ∷ xs) ys = ground arith

module _ {Float : Type 0} where
  -- The root on disk, if there is one, is the one recorded.
  abbrev pub IsUntouched : EvidenceBlock Float → Option String × ℕ → Type 0
  IsUntouched block (none, count) = Unit
  IsUntouched block (some root, count) = root ≡ block.merkle_root

  disk_errors-nil_iff :
      (idx : ℕ) (block : EvidenceBlock Float) (disk : Option String × ℕ)
      → (disk_errors idx block disk ≡ []) ↔ IsUntouched block disk
  unfolding disk_errors
  disk_errors-nil_iff idx block (none, count) = (λ _. tt, λ _. refl)
  disk_errors-nil_iff idx block (some root, count) =
      ground (arith, str_eq_iff root block.merkle_root)

module _ {Float : Type 0} (sha256_hex : String → String) where
  -- The block has its position's index, links to the hash before it, and its hash is that of its
  -- fields.
  abbrev pub IsWhole : ℕ → String → EvidenceBlock Float → Type 0
  IsWhole idx previous block =
      (block.block_index ≡ pos idx)
      × (block.previous_hash ≡ previous)
      × (block.block_hash ≡ recomputed sha256_hex block)

  block_errors-nil_iff :
      (idx : ℕ) (previous : String) (block : EvidenceBlock Float) (disk : Option String × ℕ)
      → (block_errors sha256_hex idx previous block disk ≡ [])
        ↔ (IsWhole idx previous block × IsUntouched block disk)
  unfolding block_errors
  block_errors-nil_iff idx previous block disk = ground (
    arith,
    eqb-pos_iff block.block_index idx,
    str_eq_iff block.previous_hash previous,
    str_eq_iff block.block_hash (recomputed sha256_hex block),
    disk_errors-nil_iff idx block disk,
  )

  -- The evidence on disk for the block's date could be read, and does not contradict it.
  abbrev pub IsKept : World → EvidenceBlock Float → Type 0
  IsKept world block =
      (disk : Option String × ℕ) × (disk_root_of sha256_hex world block ≡ ok disk)
      × IsUntouched block disk

  -- Blocks that follow a ledger of `idx` blocks that ends in the hash `previous`.
  abbrev pub IsLinked : World → ℕ → String → List (EvidenceBlock Float) → Type 0
  IsLinked world idx previous [] = Unit
  IsLinked world idx previous (block ∷ chain) =
      IsWhole idx previous block
      × IsKept world block
      × IsLinked world (suc idx) block.block_hash chain

  pub check_blocks-nil :
      (world : World) (idx : ℕ) (previous : String) (chain : List (EvidenceBlock Float))
      → check_blocks sha256_hex world idx previous chain ≡ ok []
      → IsLinked world idx previous chain
  unfolding check_blocks
  check_blocks-nil world idx previous [] h = tt
  check_blocks-nil world idx previous (block ∷ chain) h =
      elim (Py-cases (disk_root_of sha256_hex world block)) [
        | inl (disk, d) ↦
            elim (Py-cases (check_blocks sha256_hex world (suc idx) block.block_hash chain)) [
              | inl (rest, r) ↦
                  let errors = block_errors sha256_hex idx previous block disk in
                  let both : errors ++ rest ≡ [] = ground (arith, d, r, h) in
                  let (e, f) = (append-nil_iff errors rest).0 both in
                  let (whole, u) = (block_errors-nil_iff idx previous block disk).0 e in
                  (
                    whole,
                    (disk, d, u),
                    check_blocks-nil world (suc idx) block.block_hash chain (r ∙ ap ok f),
                  )
              | inr (x, r) ↦ absurd (ground arith)
            ]
        | inr (x, d) ↦ absurd (ground arith)
      ]

  pub check_blocks_linked :
      (world : World) (idx : ℕ) (previous : String) (chain : List (EvidenceBlock Float))
      → IsLinked world idx previous chain
      → check_blocks sha256_hex world idx previous chain ≡ ok []
  unfolding check_blocks
  check_blocks_linked world idx previous [] h = refl
  check_blocks_linked world idx previous (block ∷ chain) (whole, (disk, d, u), linked) =
      let r = check_blocks_linked world (suc idx) block.block_hash chain linked in
      let e : block_errors sha256_hex idx previous block disk ≡ [] =
        (block_errors-nil_iff idx previous block disk).1 (whole, u) in
      ground (arith, d, r, e)
