-- ===== src/Integrity/Folder.antt =====
-- An evidence folder as sentinel/integrity.py sees it, and what it uses of JSON and HMAC, which are a
-- parameter.
use soc2_sentinel.Base.{String, List, ◌∷◌, Option, some, str_eq, contains, if◌then◌else◌}
use soc2_sentinel.Python.{Floats, Val, Fields}
use soc2_sentinel.Vault.{Node, file}

-- What `out_dir / name` is for every name, and the names of the files directly below.
pub record OutDir : Type 0 where
  pub at : String → Option Node
  pub files : List String

pub record ManifestCodec (F : Floats) : Type 0 where
  -- `json.loads`; none for a JSONDecodeError.
  pub loads : String → Option (Val F.Float)
  -- `json.dumps(manifest, indent=2)`
  pub dumps : Fields F.Float → String
  -- `json.dumps(artifacts, sort_keys=True, separators=(",", ":"))`
  pub canonical_json : Fields F.Float → String
  -- `hmac_sign(content, secret=secret)`, as secret and content
  pub hmac_sign : String → String → String

-- `path.write_text(...)`
unfoldable pub write_file : String → String → OutDir → OutDir
unfolding contains
write_file name contents dir = record {
  at = λ other. if str_eq other name then some (file contents) else dir.at other;
  files = if contains dir.files name then dir.files else name ∷ dir.files;
}
