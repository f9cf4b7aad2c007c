-- ===== src/Integrity/Tests.antt =====
-- The theorems about sentinel/integrity.py for a folder with one report.
use soc2_sentinel.Base.{
  String, ◌<>◌, ◌≡◌, ◌≢◌, ◌↔◌, refl, true, [], ◌∷◌, none, some, arith, str_eq, contains,
  if◌then◌else◌,
}
use soc2_sentinel.Python.{ok, str, dict, Fields, end, field, set}
use soc2_sentinel.Python.Fixed.{fixed, Fixed}
use soc2_sentinel.Vault.{Node, file}
use soc2_sentinel.Integrity.{
  OutDir, ManifestCodec, build_manifest, write_manifest, verify_fields, verify_manifest,
}
use soc2_sentinel.Integrity.Intact.{IsIntact, verify_manifest-ok_iff}
use soc2_sentinel.Integrity.Written.{build_manifest-verified, verify_fields_relabelled}

abbrev digest : String → String
digest s = s <> "#"

abbrev report : Node
report = file "{}"

abbrev folder : OutDir
folder = record {
  at = λ name. if str_eq name "report.json" then some report else none;
  files = "report.json" ∷ [];
}

abbrev recorded : Fields Fixed
recorded = field "control_id" (str "CC6.1") (
    field "generated_at" (str "now") (
      field "toolkit_version" (str "1")
        (field "artifacts" (dict (field "report.json" (str "{}#") end)) end)))

abbrev codec : ManifestCodec fixed
codec = record {
  loads = λ text. some (dict recorded);
  dumps = λ d. "manifest";
  canonical_json = λ d. "artifacts";
  hmac_sign = λ secret content. "f00d";
}

built :
    build_manifest fixed codec digest folder "CC6.1" ("report.json" ∷ []) "now" "1" "" ≡ ok recorded
unfolding build_manifest
built = refl

report-there : folder.at "report.json" ≢ none
report-there h = ground (arith, h)

verify_manifest-ok_iff_example :
    (verify_manifest fixed codec digest folder "" ≡ ok (true, []))
    ↔ IsIntact fixed codec digest folder ""
verify_manifest-ok_iff_example = verify_manifest-ok_iff fixed codec digest folder ""

build_manifest-verified_example :
    verify_manifest fixed codec digest (write_manifest fixed codec digest folder recorded) ""
    ≡ ok (true, [])
unfolding contains
build_manifest-verified_example =
    build_manifest-verified fixed codec digest folder ("report.json" ∷ []) "CC6.1" "now" "1" ""
      recorded built refl (λ content. refl) (refl, tt) ((report-there, refl), tt)

verify_fields_relabelled_example :
    verify_fields fixed codec digest folder "key" (set recorded "control_id" (str "A1.2"))
    ≡ verify_fields fixed codec digest folder "key" recorded
verify_fields_relabelled_example =
    verify_fields_relabelled fixed codec digest folder "key" recorded "control_id" (str "A1.2") refl
      refl
