-- ===== src/Vault/Disk.antt =====
-- What a run's directory holds, and `_compute_evidence_merkle_root` of sentinel/vault.py.
use soc2_sentinel.Base.{
  ℕ, String, List, [], ◌∷◌, ◌++◌, length, contains, str_eq, Option, none, some, if◌then◌else◌, ◌==◌,
}
use soc2_sentinel.Python.{Py, ok, raise, os_error, ◌>>=◌}
use soc2_sentinel.Vault.Merkle.{merkle_root}

-- A file with its contents, or a directory. The entries of a directory stand in the order of their
-- paths, in which the code visits them.
mutual
  pub data Node : Type 0 where
    file : String → Node
    directory : Entries → Node

  pub data Entries : Type 0 where
    no_more : Entries
    entry : String → Node → Entries → Entries

-- `path / name`, if it exists.
unfoldable pub child : Entries → String → Option Node
child no_more name = none
child (entry name' node entries) name = if str_eq name name' then some node else child entries name

-- `report.json`, or else `evidence.json`.
unfoldable pub report_file : Entries → Option Node
unfolding child
report_file entries = elim (child entries "report.json") [
  | none ↦ child entries "evidence.json"
  | some node ↦ some node
]

module _ (sha256_hex : String → String) where
  -- `sha256_file`: a directory cannot be opened as a file.
  abbrev pub sha256_file : Node → Py String
  sha256_file (file contents) = ok (sha256_hex contents)
  sha256_file (directory entries) = raise os_error

  abbrev hash_onto : Node → Py (List String) → Py (List String)
  hash_onto node rest = do leaf ← sha256_file node; leaves ← rest; ok (leaf ∷ leaves)

  -- The loop over `date_path.iterdir()`.
  unfoldable pub collector_leaves : Entries → Py (List String)
  unfolding report_file
  collector_leaves no_more = ok []
  collector_leaves (entry name (file contents) entries) = collector_leaves entries
  collector_leaves (entry name (directory sub) entries) =
      let rest = collector_leaves entries in
      if str_eq name "manifests"
      then rest
      else elim (report_file sub) [ none ↦ rest | some node ↦ hash_onto node rest ]

  -- The loop over `date_path.rglob("*.json")`.
  unfoldable pub nested_leaves : Entries → Py (List String)
  unfolding contains
  nested_leaves no_more = ok []
  nested_leaves (entry name (file contents) entries) =
      let rest = nested_leaves entries in
      if contains ("report.json" ∷ "evidence.json" ∷ []) name
      then hash_onto (file contents) rest
      else rest
  nested_leaves (entry name (directory sub) entries) =
      let below = nested_leaves sub in
      let rest = nested_leaves entries in
      let both = below >>= λ xs. rest >>= λ ys. ok (xs ++ ys) in
      if contains ("report.json" ∷ "evidence.json" ∷ []) name
      then hash_onto (directory sub) both
      else both

  unfoldable pub root_of : List String → Option String × ℕ
  unfolding merkle_root
  root_of [] = (none, 0)
  root_of (leaf ∷ leaves) = (some (merkle_root sha256_hex (leaf ∷ leaves)), length (leaf ∷ leaves))

  unfoldable pub compute_evidence_merkle_root : Option Node → Py (Option String × ℕ)
  unfolding collector_leaves nested_leaves root_of
  compute_evidence_merkle_root none = ok (none, 0)
  compute_evidence_merkle_root (some (file contents)) = raise os_error
  compute_evidence_merkle_root (some (directory entries)) = do
    leaves ← collector_leaves entries
    nested ← if length leaves == 0 then nested_leaves entries else ok []
    ok (root_of (leaves ++ nested))
