-- ===== src/Integrity/Manifest.antt =====
-- `build_manifest`, `write_manifest` and `verify_manifest` of sentinel/integrity.py. The HMAC key is the text
-- of the environment variable, stripped.
use soc2_sentinel.Base.{
  String, ◌<>◌, Bool, true, false, not, ◌||◌, List, [], ◌∷◌, ◌++◌, Option, none, some, str_eq, keep,
  if◌then◌else◌,
}
use soc2_sentinel.Python.{
  Py, ok, raise, os_error, ◌>>=◌, Floats, Val, null, str, dict, list, Items, nil, item, Fields, end,
  field, get, set, has, as_dict, is_text, truthy,
}
use soc2_sentinel.Vault.{Node, file, directory, sorted, sha256_file}
use soc2_sentinel.Integrity.Folder.{OutDir, ManifestCodec, write_file}

-- `len(issues) == 0, issues`
abbrev pub no_issues : List String → Bool
no_issues [] = true
no_issues (_ ∷ _) = false

-- `name in {"manifest.json", ".lock"}`
abbrev pub is_allowed_file : String → Bool
is_allowed_file name = str_eq name "manifest.json" || str_eq name ".lock"

module _ (F : Floats) (C : ManifestCodec F) (sha256_hex : String → String) where
  -- The digests of the written files that exist.
  unfoldable pub collect_artifacts : OutDir → List String → Fields F.Float → Py (Fields F.Float)
  unfolding set
  collect_artifacts dir [] artifacts = ok artifacts
  collect_artifacts dir (name ∷ names) artifacts = elim (dir.at name) [
    | none ↦ collect_artifacts dir names artifacts
    | some node ↦ sha256_file sha256_hex node >>= λ digest.
        collect_artifacts dir names (set artifacts name (str digest))
  ]

  unfoldable pub unsigned_manifest : String → String → String → Fields F.Float → Fields F.Float
  unsigned_manifest control_id now version artifacts = field "control_id" (str control_id) (
      field "generated_at" (str now)
        (field "toolkit_version" (str version) (field "artifacts" (dict artifacts) end)))

  unfoldable pub build_manifest :
      OutDir → String → List String → String → String → String → Py (Fields F.Float)
  unfolding collect_artifacts unsigned_manifest set
  build_manifest dir control_id written_files now version hmac_key = do
    artifacts ← collect_artifacts dir written_files end
    let manifest = unsigned_manifest control_id now version artifacts
    ok (
        if str_eq hmac_key ""
        then manifest
        else set manifest "hmac_sha256" (str (C.hmac_sign hmac_key (C.canonical_json artifacts))))

  unfoldable pub write_manifest : OutDir → Fields F.Float → OutDir
  unfolding write_file
  write_manifest dir manifest = write_file "manifest.json" (C.dumps manifest) dir

  -- The loop over the recorded artifacts.
  unfoldable pub artifact_issues : OutDir → Fields F.Float → Py (List String)
  artifact_issues dir end = ok []
  artifact_issues dir (field name expected artifacts) = elim (dir.at name) [
    | none ↦
        artifact_issues dir artifacts >>= λ issues. ok (("missing artifact: " <> name) ∷ issues)
    | some node ↦ do
      digest ← sha256_file sha256_hex node
      issues ← artifact_issues dir artifacts
      ok (if is_text expected digest then issues else ("hash mismatch: " <> name) ∷ issues)
  ]

  -- `actual_files - expected_files - allowed_files`
  unfoldable pub unlisted_files : OutDir → Fields F.Float → List String
  unfolding has
  unlisted_files dir artifacts =
      keep (λ name. not (has artifacts name || is_allowed_file name)) dir.files

  abbrev pub as_items : List String → Items F.Float
  as_items [] = nil
  as_items (name ∷ names) = item (str name) (as_items names)

  unfoldable pub unlisted_issues : OutDir → Fields F.Float → List String
  unfolding unlisted_files sorted
  unlisted_issues dir artifacts = elim (unlisted_files dir artifacts) [
    | [] ↦ []
    | name ∷ names ↦
        ("unexpected unlisted files: " <> F.show (list (as_items (sorted (name ∷ names))))) ∷ []
  ]

  unfoldable pub hmac_issues : String → Fields F.Float → Val F.Float → List String
  unfolding truthy
  hmac_issues hmac_key artifacts stored =
      if not (str_eq hmac_key "")
      then if not (truthy F stored)
        then "HMAC key set but manifest has no hmac_sha256" ∷ []
        else if is_text stored (C.hmac_sign hmac_key (C.canonical_json artifacts))
        then []
        else "HMAC verification failed" ∷ []
      else if truthy F stored
      then "manifest has HMAC but SENTINEL_HMAC_KEY not set" ∷ []
      else []

  -- From where the manifest is read.
  unfoldable pub verify_fields : OutDir → String → Fields F.Float → Py (Bool × List String)
  unfolding artifact_issues unlisted_issues hmac_issues get
  verify_fields dir hmac_key manifest = do
    artifacts ← as_dict (get manifest "artifacts" (dict end))
    wrong ← artifact_issues dir artifacts
    let issues =
        wrong
        ++ (unlisted_issues dir artifacts
            ++ hmac_issues hmac_key artifacts (get manifest "hmac_sha256" null))
    ok (no_issues issues, issues)

  abbrev pub verify_text : OutDir → String → Option (Val F.Float) → Py (Bool × List String)
  verify_text dir hmac_key none = ok (false, "manifest.json invalid JSON" ∷ [])
  verify_text dir hmac_key (some value) = as_dict value >>= verify_fields dir hmac_key

  -- `path.read_text()`
  abbrev pub text_of_node : Node → Py String
  text_of_node (file contents) = ok contents
  text_of_node (directory _) = raise os_error

  unfoldable pub verify_manifest : OutDir → String → Py (Bool × List String)
  unfolding verify_fields
  verify_manifest dir hmac_key = elim (dir.at "manifest.json") [
    | none ↦ ok (false, "manifest.json missing" ∷ [])
    | some node ↦ text_of_node node >>= λ text. verify_text dir hmac_key (C.loads text)
  ]
