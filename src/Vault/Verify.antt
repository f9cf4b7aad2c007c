-- ===== src/Vault/Verify.antt =====
-- `verify_chain` of sentinel/vault.py.
use soc2_sentinel.Base.{
  ℕ, suc, String, ◌<>◌, Bool, true, false, not, List, [], ◌∷◌, ◌++◌, length, str_eq, show_nat,
  Option, none, some, if◌then◌else◌,
}
use soc2_sentinel.Base.Int.{pos, eqb_ℤ, show_int}
use soc2_sentinel.Python.{Py, ok, ◌>>=◌}
use soc2_sentinel.Vault.Merkle.{zeros}
use soc2_sentinel.Vault.Block.{EvidenceBlock, calculate_hash, Codec}
use soc2_sentinel.Vault.Disk.{compute_evidence_merkle_root}
use soc2_sentinel.Vault.Ledger.{Store, World, read_chain, last_hash}

-- The messages that one block adds.
abbrev report_if : Bool → String → List String → List String
report_if fault message errors = if fault then message ∷ errors else errors

unfoldable pub disk_errors :
    {Float : Type 0} → ℕ → EvidenceBlock Float → Option String × ℕ → List String
unfolding show_nat
disk_errors idx block (none, count) = []
disk_errors idx block (some disk_root, count) =
    if str_eq disk_root block.merkle_root
    then []
    else ("Evidence tamper detected at block "
        <> show_nat idx
        <> " (date "
        <> block.evidence_date
        <> "): recorded Merkle root '"
        <> block.merkle_root
        <> "', recomputed from disk '"
        <> disk_root
        <> "'")
      ∷ []

-- What `verify_chain` reports: validity, the number of blocks, the latest hash and the errors.
pub data Report : Type 0 where
  empty_chain : Report
  checked : Bool → ℕ → String → List String → Report

abbrev pub is_valid : Report → Bool
is_valid empty_chain = true
is_valid (checked valid _ _ _) = valid

abbrev no_errors : List String → Bool
no_errors [] = true
no_errors (_ ∷ _) = false

module _ {Float : Type 0} (sha256_hex : String → String) where
  abbrev pub recomputed : EvidenceBlock Float → String
  recomputed b =
      calculate_hash sha256_hex b.block_index b.timestamp b.tenant_id b.evidence_date b.merkle_root
        b.previous_hash b.collector_count b.signatory

  -- The Merkle root of the directory that is on disk for a block's date; if there is none, no root.
  unfoldable pub disk_root_of : World → EvidenceBlock Float → Py (Option String × ℕ)
  unfolding compute_evidence_merkle_root
  disk_root_of world block =
      compute_evidence_merkle_root sha256_hex (world.in_evidence block.evidence_date)

  unfoldable pub block_errors : ℕ → String → EvidenceBlock Float → Option String × ℕ → List String
  unfolding calculate_hash disk_errors show_nat show_int
  block_errors idx expected_prev_hash block disk =
      report_if (not (eqb_ℤ block.block_index (pos idx)))
        ("Block index mismatch at position "
          <> show_nat idx
          <> ": got "
          <> show_int block.block_index)
        (report_if (not (str_eq block.previous_hash expected_prev_hash))
          ("Broken chain linkage at block "
            <> show_nat idx
            <> ": expected prev_hash '"
            <> expected_prev_hash
            <> "', got '"
            <> block.previous_hash
            <> "'")
          (report_if (not (str_eq block.block_hash (recomputed block)))
            ("Hash tamper detected at block "
              <> show_nat idx
              <> ": recorded '"
              <> block.block_hash
              <> "', calculated '"
              <> recomputed block
              <> "'")
            (disk_errors idx block disk)))

  -- The loop over `enumerate(chain)`.
  unfoldable pub check_blocks : World → ℕ → String → List (EvidenceBlock Float) → Py (List String)
  unfolding disk_root_of block_errors
  check_blocks world idx expected_prev_hash [] = ok []
  check_blocks world idx expected_prev_hash (block ∷ chain) = do
    disk ← disk_root_of world block
    rest ← check_blocks world (suc idx) block.block_hash chain
    ok (block_errors idx expected_prev_hash block disk ++ rest)

  unfoldable pub report_on : World → List (EvidenceBlock Float) → Py Report
  unfolding check_blocks last_hash
  report_on world [] = ok empty_chain
  report_on world (block ∷ chain) = do
    errors ← check_blocks world 0 zeros (block ∷ chain)
    ok (
        checked (no_errors errors) (length (block ∷ chain)) (last_hash (block ∷ chain) zeros)
          errors)

module _ {Float : Type 0} (sha256_hex : String → String) (C : Codec Float) where
  unfoldable pub verify_chain : World → Store → Option String → Py Report
  unfolding read_chain report_on
  verify_chain world store tenant_id =
      report_on sha256_hex world (read_chain C world store tenant_id)
