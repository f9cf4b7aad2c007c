-- ===== src/Vault/Ledger.antt =====
-- A tenant's ledger in sentinel/vault.py: the store of ledger files, reading and appending.
use soc2_sentinel.Base.{String, ◌<>◌, List, [], ◌∷◌, ◌++◌, str_eq, Option, if◌then◌else◌}
use soc2_sentinel.Python.{Py, ok, raise}
use soc2_sentinel.Vault.Block.{EvidenceBlock, Codec}
use soc2_sentinel.Python.{or_text}
use soc2_sentinel.Vault.Disk.{Node}

-- `_get_chain_file`, below the base root.
unfoldable pub chain_file : String → String
chain_file tenant_id =
    if str_eq tenant_id "default"
    then "vault/evidence_chain.jsonl"
    else "tenants/" <> (tenant_id <> "/vault/evidence_chain.jsonl")

-- The lines of each ledger file; a file that does not exist has none.
abbrev pub Store : Type 0
Store = String → List String

-- What a run reads besides the ledgers: the node at a path, the node of that name in the evidence
-- directory, a path's last part, the clock, and the current tenant and user.
pub record World : Type 0 where
  pub at : String → Option Node
  pub in_evidence : String → Option Node
  pub name : String → String
  pub now : String
  pub current_tenant : String
  pub current_user : String

-- `f.write(line)` in append mode
unfoldable pub append_line : Store → String → String → Store
append_line store path line =
    λ other. if str_eq other path then store other ++ (line ∷ []) else store other

-- `chain[-1].block_hash if chain else default`
unfoldable pub last_hash : {Float : Type 0} → List (EvidenceBlock Float) → String → String
last_hash [] default = default
last_hash (block ∷ blocks) default = last_hash blocks block.block_hash

module _ {Float : Type 0} (C : Codec Float) where
  abbrev or_skip :
      Py (EvidenceBlock Float) → List (EvidenceBlock Float) → List (EvidenceBlock Float)
  or_skip (ok block) blocks = block ∷ blocks
  or_skip (raise _) blocks = blocks

  -- The loop of `read_chain`: blank lines and corrupt ones are passed over.
  unfoldable pub parse_lines : List String → List (EvidenceBlock Float)
  parse_lines [] = []
  parse_lines (line ∷ lines) =
      let blocks = parse_lines lines in
      if str_eq (C.strip line) "" then blocks else or_skip (C.loads (C.strip line)) blocks

  unfoldable pub read_chain : World → Store → Option String → List (EvidenceBlock Float)
  unfolding parse_lines chain_file
  read_chain world store tenant_id =
      parse_lines (store (chain_file (or_text tenant_id world.current_tenant)))
