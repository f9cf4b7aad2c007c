-- ===== src/Drift/Loading.antt =====
-- `_load_run_evidence` of sentinel/drift.py, over the folders of a run. Reading a file gives the value
-- of its JSON text, or raises.
use soc2_sentinel.Base.{
  String, Bool, not, ◌||◌, List, [], ◌∷◌, Option, none, some, str_eq, if◌then◌else◌,
}
use soc2_sentinel.Python.{
  Py, ok, raise, type_error, ◌>>=◌, Floats, Val, null, str, list, dict, Fields, get, as_dict,
  truthy,
}
use soc2_sentinel.Drift.Items.{Operators}

module _ (F : Floats) where
  -- An entry of a run's folder; a file that does not exist is none.
  pub record Folder : Type 0 where
    pub name : String
    pub is_dir : Bool
    pub report_json : Option (Py (Val F.Float))
    pub evidence_json : Option (Py (Val F.Float))

  abbrev pub evidence_file : Folder → Option (Py (Val F.Float))
  evidence_file sub = elim sub.report_json [
    | some content ↦ some content
    | none ↦ sub.evidence_json
  ]

  -- A dictionary of the evidence by its collector, in the order of insertion.
  abbrev pub RunEvidence : Type 0
  RunEvidence = List (Val F.Float × Fields F.Float)

  -- `hash(v)`: lists and dictionaries have none.
  abbrev pub hashed : Val F.Float → Py (Val F.Float)
  hashed (list _) = raise type_error
  hashed (dict _) = raise type_error
  hashed v = ok v

  abbrev pub canonical_name : String → Option String
  canonical_name control =
      if str_eq control "CC6.1"
      then some "iam_access_review"
      else if str_eq control "CC6.2"
      then some "config_drift"
      else if str_eq control "CC7.1"
      then some "log_aggregator"
      else if str_eq control "C1.2"
      then some "encryption_status"
      else if str_eq control "C1.4"
      then some "retention_check"
      else if str_eq control "A1.2"
      then some "resilience_testing"
      else if str_eq control "ZT-1"
      then some "zt_continuous_verification"
      else none

  -- `canonical_map.get(control)`
  abbrev pub canonical : Val F.Float → Option String
  canonical (str control) = canonical_name control
  canonical _ = none

  -- `d or rest` of a value, and of a name that may be missing
  abbrev pub or_value : Val F.Float → Val F.Float → Val F.Float
  or_value v rest = if truthy F v then v else rest

  abbrev pub or_name : Option String → Val F.Float → Val F.Float
  or_name (some name) rest = str name
  or_name none rest = rest

  unfoldable pub collector_of : String → Fields F.Float → Py (Val F.Float)
  unfolding truthy get
  collector_of sub_name payload =
      let control = get payload "control_id" (str "") in
      let by_folder =
        or_name (canonical_name sub_name)
          (or_value (get payload "control_id" null) (str sub_name)) in
      if truthy F (get payload "collector" null)
      then ok (get payload "collector" null)
      else hashed control >>= λ c. ok (or_name (canonical c) by_folder)

module _ (F : Floats) (O : Operators F) where
  -- `evidence[key] = payload`
  unfoldable pub put_evidence : Val F.Float → Fields F.Float → RunEvidence F → RunEvidence F
  put_evidence key payload [] = (key, payload) ∷ []
  put_evidence key payload ((k, d) ∷ evidence) =
      let rest = put_evidence key payload evidence in
      if O.eq key k then (k, payload) ∷ evidence else (k, d) ∷ rest

  unfoldable pub find_evidence : Val F.Float → RunEvidence F → Option (Fields F.Float)
  find_evidence key [] = none
  find_evidence key ((k, d) ∷ evidence) = if O.eq key k then some d else find_evidence key evidence

  -- `if ctrl_id and ctrl_id in canonical_map:`; the key cannot be looked up where it has no hash.
  unfoldable pub put_canonical : Fields F.Float → RunEvidence F → RunEvidence F
  unfolding put_evidence get
  put_canonical payload evidence = elim (canonical F (get payload "control_id" null)) [
    | some name ↦ put_evidence (str name) payload evidence
    | none ↦ evidence
  ]

  -- The body of the `try`; what it put before an exception stays.
  unfoldable pub put_data : String → Fields F.Float → RunEvidence F → RunEvidence F
  unfolding put_evidence put_canonical collector_of
  put_data sub_name payload evidence = elim (collector_of F sub_name payload >>= hashed F) [
    | ok collector ↦ put_canonical payload (put_evidence collector payload evidence)
    | raise _ ↦ evidence
  ]

  abbrev pub put_file : String → Option (Py (Val F.Float)) → RunEvidence F → RunEvidence F
  put_file sub_name none evidence = evidence
  put_file sub_name (some content) evidence = elim (content >>= as_dict) [
    | ok payload ↦ put_data sub_name payload evidence
    | raise _ ↦ evidence
  ]

  -- One round of the loop over the folders.
  unfoldable pub load_folder : Folder F → RunEvidence F → RunEvidence F
  unfolding put_data
  load_folder sub evidence =
      if not sub.is_dir || str_eq sub.name "manifests"
      then evidence
      else put_file sub.name (evidence_file F sub) evidence

  unfoldable pub load_folders : List (Folder F) → RunEvidence F → RunEvidence F
  unfolding load_folder
  load_folders [] evidence = evidence
  load_folders (sub ∷ subs) evidence = load_folders subs (load_folder sub evidence)

  unfoldable pub load_run_evidence : Option (List (Folder F)) → RunEvidence F
  unfolding load_folders
  load_run_evidence none = []
  load_run_evidence (some subs) = load_folders subs []
