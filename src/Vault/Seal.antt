-- ===== src/Vault/Seal.antt =====
-- `seal_run` of sentinel/vault.py.
use soc2_sentinel.Base.{ℕ, String, List, length, Option, none, some, if◌then◌else◌, ◌==◌}
use soc2_sentinel.Base.Int.{pos}
use soc2_sentinel.Python.{Py, ok, raise, value_error, ◌>>=◌, end, field, int}
use soc2_sentinel.Vault.Merkle.{zeros}
use soc2_sentinel.Vault.Block.{EvidenceBlock, calculate_hash, Codec}
use soc2_sentinel.Vault.Disk.{Node, compute_evidence_merkle_root}
use soc2_sentinel.Python.{or_text}
use soc2_sentinel.Vault.Ledger.{
  chain_file, Store, World, parse_lines, read_chain, last_hash, append_line,
}

abbrev pub or_node : Option Node → Option Node → Option Node
or_node (some node) _ = some node
or_node none other = other

-- The run's directory: at its path, or else in the evidence directory.
abbrev pub located : World → String → Option Node
located world date = or_node (world.at date) (world.in_evidence date)

module _ {Float : Type 0} (sha256_hex : String → String) where
  -- The new block, for a Merkle root and the count of its leaves.
  unfoldable pub new_block :
      World
      → List (EvidenceBlock Float)
      → String
      → String
      → String
      → String
      → ℕ
      → EvidenceBlock Float
  unfolding calculate_hash last_hash
  new_block world chain tenant signer date root count =
      let index = pos (length chain) in
      let previous = last_hash chain zeros in
      record {
        block_index = index;
        timestamp = world.now;
        tenant_id = tenant;
        evidence_date = world.name date;
        merkle_root = root;
        previous_hash = previous;
        block_hash =
            calculate_hash sha256_hex index world.now tenant (world.name date) root previous
              (pos count) signer;
        collector_count = pos count;
        signatory = signer;
        details = field "leaf_count" (int (pos count)) end;
      }

module _ {Float : Type 0} (sha256_hex : String → String) (C : Codec Float) where
  unfoldable pub seal_root :
      World
      → Store
      → String
      → String
      → String
      → Option String × ℕ
      → Py (EvidenceBlock Float × Store)
  unfolding read_chain new_block append_line
  seal_root world store tenant signer date (none, count) = raise value_error
  seal_root world store tenant signer date (some root, count) =
      let chain = parse_lines C (store (chain_file tenant)) in
      let block = new_block sha256_hex world chain tenant signer date root count in
      if count == 0
      then raise value_error
      else ok (block, append_line store (chain_file tenant) (C.dumps block))

  unfoldable pub seal_run :
      World → Store → String → Option String → Option String → Py (EvidenceBlock Float × Store)
  unfolding compute_evidence_merkle_root seal_root
  seal_run world store date tenant_id signatory = do
    sealed ← compute_evidence_merkle_root sha256_hex (located world date)
    seal_root world store (or_text tenant_id world.current_tenant)
        (or_text signatory world.current_user) date sealed
