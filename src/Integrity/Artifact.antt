-- ===== src/Integrity/Artifact.antt =====
-- `verify_and_decrypt_artifact` and `verify_evidence_tree` of sentinel/integrity.py. The bytes of a file are
-- a function of its contents, which is an argument.
use soc2_sentinel.Base.{
  ℕ, suc, String, Bool, true, false, List, [], ◌∷◌, Option, none, some, str_eq, if◌then◌else◌, ◌≡◌,
  refl, ap, ◌∙◌,
}
use soc2_sentinel.Python.{
  Py, ok, raise, validation_error, value_error, ◌>>=◌, >>=-eq-ok, Floats, Val, dict, Fields, end,
  get, has, as_dict,
}
use soc2_sentinel.Vault.{Node, file, directory}
use soc2_sentinel.Security.{Bytes, Crypto, Environment, decrypt_bytes}
use soc2_sentinel.Integrity.{OutDir, ManifestCodec, text_of_node, verify_manifest}
use soc2_sentinel.Integrity.Intact.{IsIntact}
use soc2_sentinel.Integrity.Verdict.{verify_manifest-true}

pub record TreeReport : Type 0 where
  pub verified : List String
  pub failed : List (String × List String)
  pub total : ℕ

module _ (F : Floats) (C : ManifestCodec F) (sha256_hex : String → String) (hmac_key : String) where
  abbrev noted : String → Bool × List String → TreeReport → TreeReport
  noted name (true, issues) report = record report {
    verified = name ∷ report.verified;
    total = suc report.total;
  }
  noted name (false, issues) report = record report {
    failed = (name, issues) ∷ report.failed;
    total = suc report.total;
  }

  -- The loop over the entries of a date's folder, which is there, in the order of their names; none for what
  -- is no folder.
  unfoldable pub verify_evidence_tree : List (String × Option OutDir) → Py TreeReport
  unfolding verify_manifest
  verify_evidence_tree [] = ok (record { verified = []; failed = []; total = 0 })
  verify_evidence_tree ((name, none) ∷ entries) = verify_evidence_tree entries
  verify_evidence_tree ((name, some dir) ∷ entries) =
      let rest = verify_evidence_tree entries in
      if str_eq name "manifests"
      then rest
      else verify_manifest F C sha256_hex dir hmac_key >>= λ verdict.
          rest >>= λ report. ok (noted name verdict report)

  module _ (X : Crypto) (env : Environment) (secret : Option String) (bytes_of : String → Bytes)
      (dir : OutDir) where
    abbrev read_json : Option Node → Py (Val F.Float)
    read_json none = raise value_error
    read_json (some node) = text_of_node F C sha256_hex node >>= λ text. elim (C.loads text) [
      | none ↦ raise value_error
      | some value ↦ ok value
    ]

    -- The artifacts of the manifest, which is read again.
    abbrev recorded_artifacts : Py (Fields F.Float)
    recorded_artifacts = read_json (dir.at "manifest.json") >>= as_dict >>= λ manifest.
        as_dict (get manifest "artifacts" (dict end))

    abbrev covered_bytes : String → String → Py Bytes
    covered_bytes name contents = recorded_artifacts >>= λ artifacts.
        if has artifacts name
        then decrypt_bytes X env secret (bytes_of contents)
        else raise validation_error

    abbrev verified_bytes : String → String → Bool × List String → Py Bytes
    verified_bytes name contents (false, issues) = raise validation_error
    verified_bytes name contents (true, issues) = covered_bytes name contents

    abbrev artifact_bytes : String → Option Node → Py Bytes
    artifact_bytes name none = raise validation_error
    artifact_bytes name (some (directory _)) = raise validation_error
    artifact_bytes name (some (file contents)) =
        verify_manifest F C sha256_hex dir hmac_key >>= verified_bytes name contents

    unfoldable pub verify_and_decrypt_artifact : String → Py Bytes
    unfolding verify_manifest decrypt_bytes has get
    verify_and_decrypt_artifact name = artifact_bytes name (dir.at name)

    verified_bytes-true :
        (name contents : String) (verdict : Bool × List String) (data_bytes : Bytes)
        → verified_bytes name contents verdict ≡ ok data_bytes
        → verdict.0 ≡ true
    verified_bytes-true name contents (true, issues) data_bytes h = refl
    verified_bytes-true name contents (false, issues) data_bytes h = cc

    artifact_bytes-IsIntact :
        (name : String) (o : Option Node) (data_bytes : Bytes)
        → artifact_bytes name o ≡ ok data_bytes
        → IsIntact F C sha256_hex dir hmac_key
    artifact_bytes-IsIntact name none data_bytes h = absurd (refused h)
      where
        refused : ¬ (raise validation_error ≡ ok data_bytes)
        refused h = cc
    artifact_bytes-IsIntact name (some (directory _)) data_bytes h = absurd (refused h)
      where
        refused : ¬ (raise validation_error ≡ ok data_bytes)
        refused h = cc
    artifact_bytes-IsIntact name (some (file contents)) data_bytes h =
        let (verdict, verified, next) =
          >>=-eq-ok (verify_manifest F C sha256_hex dir hmac_key) (verified_bytes name contents)
            h in
        verify_manifest-true F C sha256_hex dir hmac_key verdict.1 (
          verified
          ∙ ap (λ b. ok (b, verdict.1)) (verified_bytes-true name contents verdict data_bytes next))

    -- Evidence is decrypted only out of a folder that is intact.
    pub verify_and_decrypt_artifact-IsIntact :
        (name : String) (data_bytes : Bytes)
        → verify_and_decrypt_artifact name ≡ ok data_bytes
        → IsIntact F C sha256_hex dir hmac_key
    unfolding verify_and_decrypt_artifact
    verify_and_decrypt_artifact-IsIntact name data_bytes h =
        artifact_bytes-IsIntact name (dir.at name) data_bytes h
