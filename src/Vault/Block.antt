-- ===== src/Vault/Block.antt =====
-- `EvidenceBlock` of sentinel/vault.py, and its JSON codec, which is a parameter.
use soc2_sentinel.Base.{String, ◌<>◌, ◌≡◌, false, str_eq}
use soc2_sentinel.Base.Int.{ℤ, show_int}
use soc2_sentinel.Python.{Py, ok, Fields}

-- `details` holds any JSON values; `Float` is the type of their floats.
pub record EvidenceBlock (Float : Type 0) : Type 0 where
  pub block_index : ℤ
  pub timestamp : String
  pub tenant_id : String
  pub evidence_date : String
  pub merkle_root : String
  pub previous_hash : String
  pub block_hash : String
  pub collector_count : ℤ
  pub signatory : String
  pub details : Fields Float

-- The text that `calculate_hash` digests.
unfoldable pub hash_payload : ℤ → String → String → String → String → String → ℤ → String → String
unfolding show_int
hash_payload block_index timestamp tenant_id evidence_date merkle_root previous_hash collector_count
      signatory =
    show_int block_index
    <> "|"
    <> timestamp
    <> "|"
    <> tenant_id
    <> "|"
    <> evidence_date
    <> "|"
    <> merkle_root
    <> "|"
    <> previous_hash
    <> "|"
    <> show_int collector_count
    <> "|"
    <> signatory

module _ (sha256_hex : String → String) where
  unfoldable pub calculate_hash :
      ℤ → String → String → String → String → String → ℤ → String → String
  unfolding hash_payload
  calculate_hash block_index timestamp tenant_id evidence_date merkle_root previous_hash
        collector_count signatory =
      sha256_hex (
        hash_payload block_index timestamp tenant_id evidence_date merkle_root previous_hash
          collector_count signatory)

-- The text that is digested for a block's own fields.
abbrev pub payload_of : {Float : Type 0} → EvidenceBlock Float → String
payload_of b =
    hash_payload b.block_index b.timestamp b.tenant_id b.evidence_date b.merkle_root b.previous_hash
      b.collector_count b.signatory

-- `json.dumps(block.to_dict())`, `str.strip`, and `EvidenceBlock(**json.loads(line))`, which raises
-- for a line that is no object with the fields of a block.
pub record Codec (Float : Type 0) : Type 0 where
  pub dumps : EvidenceBlock Float → String
  pub strip : String → String
  pub loads : String → Py (EvidenceBlock Float)

-- The block's dump is no blank line, has no white space at its ends, and is read back.
pub record IsReadBack {Float : Type 0} (C : Codec Float) (block : EvidenceBlock Float)
    : Type 0 where
  pub strip-dumps : C.strip (C.dumps block) ≡ C.dumps block
  pub dumps-filled : str_eq (C.dumps block) "" ≡ false
  pub loads-dumps : C.loads (C.dumps block) ≡ ok block
