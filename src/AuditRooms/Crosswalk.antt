-- ===== src/AuditRooms/Crosswalk.antt =====
-- `build_control_crosswalk` of sentinel/audit_room.py. The folder of evidence is a function from a date to
-- the folders of the day, if the day's is there. The key of the manifests is an argument.
use soc2_sentinel.Base.{
  ℕ, String, ◌<>◌, Bool, true, not, ◌&&◌, List, [], ◌∷◌, ◌++◌, map, Option, none, some, contains,
  length, if◌then◌else◌,
}
use soc2_sentinel.Python.{Py, ok, raise, ◌>>=◌, Floats, Val, null, dict, get, is_text}
use soc2_sentinel.Vault.{file, directory, sha256_file}
use soc2_sentinel.Integrity.{OutDir, ManifestCodec, verify_manifest}
use soc2_sentinel.AuditRooms.Catalog.{criterion_of, candidate_dirs}
use soc2_sentinel.AuditRooms.Room.{AuditRoom}

abbrev pub Day : Type 0
Day = String → OutDir

pub record Artifact : Type 0 where
  pub date : String
  pub collector : String
  pub file_name : String
  pub sha256 : String

pub record ControlRow : Type 0 where
  pub control_id : String
  pub title : String
  pub category : String
  pub evidence_count : ℕ
  pub evidence_status : String
  pub artifacts : List Artifact

-- What `p.exists() and p.is_file()` finds, as the contents of the file.
abbrev pub text_at : OutDir → String → Option String
text_at dir name = elim (dir.at name) [
  | some (file text) ↦ some text
  | some (directory _) ↦ none
  | none ↦ none
]

-- The loop over the candidates: a folder, the name of a file in it, and its contents.
unfoldable pub find_file : Day → List String → Option (String × String × String)
find_file day [] = none
find_file day (folder ∷ folders) =
    let rest = find_file day folders in
    elim (text_at (day folder) "report.json") [
      | some text ↦ some (folder, "report.json", text)
      | none ↦ elim (text_at (day folder) "evidence.json") [
        | some text ↦ some (folder, "evidence.json", text)
        | none ↦ rest
      ]
    ]

abbrev pub is_subset : List String → List String → Bool
is_subset [] collectors = true
is_subset (name ∷ names) collectors = contains collectors name && is_subset names collectors

-- `ev_status`, from what is required and what was found.
unfoldable pub status_of_evidence : List String → List Artifact → String
unfolding contains
status_of_evidence [] [] = "NO_EVIDENCE_IN_WINDOW"
status_of_evidence [] (artifact ∷ artifacts) = "SATISFIED"
status_of_evidence (name ∷ names) artifacts =
    if is_subset (name ∷ names) (map (λ a. a.collector) artifacts)
    then "SATISFIED"
    else elim artifacts [ [] ↦ "NO_EVIDENCE_IN_WINDOW" | _ ∷ _ ↦ "PARTIAL_EVIDENCE" ]

module _ (F : Floats) (C : ManifestCodec F) (sha256_hex : String → String) (hmac_key : String) where
  abbrev pub is_not_failed : Val F.Float → Bool
  is_not_failed (dict fields) = not (is_text (get fields "collection_quality" null) "failed")
  is_not_failed _ = true

  -- A file that cannot be read as a JSON dictionary counts as complete.
  abbrev pub counts_as_complete : String → Bool
  counts_as_complete text = elim (C.loads text) [ none ↦ true | some value ↦ is_not_failed value ]

  abbrev pub hash_or_unknown : Py String → String
  hash_or_unknown (ok digest) = digest
  hash_or_unknown (raise _) = "UNKNOWN"

  abbrev pub artifact : String → String → String → String → String → Artifact
  artifact date collector folder name text = record {
    date = date;
    collector = collector;
    file_name = date <> ("/" <> (folder <> ("/" <> name)));
    sha256 = hash_or_unknown (sha256_file sha256_hex (file text));
  }

  abbrev pub admitted :
      String → String → Day → Option (String × String × String) → Py (List Artifact)
  admitted date collector day none = ok []
  admitted date collector day (some (folder, name, text)) = do
    verdict ← verify_manifest F C sha256_hex (day folder) hmac_key
    ok (
        if verdict.0 && counts_as_complete text
        then artifact date collector folder name text ∷ []
        else [])

  -- The loop over the required collectors of a day.
  unfoldable pub day_artifacts : String → Day → List String → Py (List Artifact)
  unfolding verify_manifest find_file candidate_dirs
  day_artifacts date day [] = ok []
  day_artifacts date day (collector ∷ collectors) = do
    found ← admitted date collector day (find_file day (candidate_dirs collector))
    rest ← day_artifacts date day collectors
    ok (found ++ rest)

  abbrev pub artifacts_of : String → List String → Option Day → Py (List Artifact)
  artifacts_of date collectors none = ok []
  artifacts_of date collectors (some day) = day_artifacts date day collectors

  -- The loop over the dates.
  unfoldable pub window_artifacts :
      (String → Option Day) → List String → List String → Py (List Artifact)
  unfolding day_artifacts
  window_artifacts days collectors [] = ok []
  window_artifacts days collectors (date ∷ dates) = do
    found ← artifacts_of date collectors (days date)
    rest ← window_artifacts days collectors dates
    ok (found ++ rest)

  unfoldable pub control_row : (String → Option Day) → List String → String → Py ControlRow
  unfolding criterion_of window_artifacts status_of_evidence
  control_row days dates control_id = do
    artifacts ← window_artifacts days (criterion_of control_id).required_collectors dates
    let row : ControlRow = record {
      control_id = control_id;
      title = (criterion_of control_id).title;
      category = (criterion_of control_id).category;
      evidence_count = length artifacts;
      evidence_status = status_of_evidence (criterion_of control_id).required_collectors artifacts;
      artifacts = artifacts;
    }
    ok row

  -- The loop over the controls.
  unfoldable pub control_rows :
      (String → Option Day) → List String → List String → Py (List ControlRow)
  unfolding control_row
  control_rows days dates [] = ok []
  control_rows days dates (control_id ∷ control_ids) = do
    row ← control_row days dates control_id
    rows ← control_rows days dates control_ids
    ok (row ∷ rows)

  unfoldable pub build_control_crosswalk : (String → Option Day) → AuditRoom → Py (List ControlRow)
  unfolding control_rows
  build_control_crosswalk days room = control_rows days room.evidence_dates room.controls_in_scope
