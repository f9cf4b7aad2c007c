-- ===== src/Scoring/Evidence.antt =====
-- `_read_evidence_dir` of sentinel/scoring.py: the folder of a date, or the newest, and the reports in
-- it. An entry of the evidence directory and a folder in it are those of the drift detection, which
-- reads the same files.
use soc2_sentinel.Base.{
  String, Bool, true, false, not, ◌&&◌, ◌||◌, List, [], ◌∷◌, Option, none, some, str_eq, le_text,
  keep, if◌then◌else◌,
}
use soc2_sentinel.Python.{
  Py, ok, raise, ◌>>=◌, Floats, Val, null, str, Fields, get, is_text, as_dict, truthy, is_given,
}
use soc2_sentinel.Drift.{Folder, Run, hashed, canonical, or_value, evidence_file, date_of}

module _ (F : Floats) where
  -- The evidence directory: its entries, where it exists, and what stands at a path in it.
  pub record EvidenceBase : Type 0 where
    pub entries : Option (List (Run F))
    pub at : String → Option (Run F)

  -- The dictionary `evidence_by_collector`, in insertion order.
  abbrev pub EvidenceMap : Type 0
  EvidenceMap = List (Val F.Float × Fields F.Float)

  -- `evidence_map.get(collector)`; a text is equal only to texts.
  unfoldable pub evidence_of : EvidenceMap → String → Option (Fields F.Float)
  evidence_of [] collector = none
  evidence_of ((key, ev) ∷ evidence) collector =
      if is_text key collector then some ev else evidence_of evidence collector

  abbrev pub is_candidate : Run F → Bool
  is_candidate d = d.is_dir && not (str_eq d.name "manifests")

  -- `max(dirs, key=lambda d: d.name)` of `first ∷ dirs`
  unfoldable pub newest : Run F → List (Run F) → Run F
  newest first [] = first
  newest first (d ∷ dirs) = newest (if le_text d.name first.name then first else d) dirs

  abbrev pub newest? : List (Run F) → Option (Run F)
  newest? [] = none
  newest? (d ∷ dirs) = some (newest d dirs)

  abbrev pub as_dir : Option (Run F) → Option (Run F)
  as_dir none = none
  as_dir (some d) = if d.is_dir then some d else none

  -- `chosen_dir`, if there is one.
  unfoldable pub chosen_dir : EvidenceBase → Option String → Option (Run F)
  unfolding newest
  chosen_dir base date_str = elim base.entries [
    | none ↦ none
    | some entries ↦
        if is_given date_str
        then as_dir (base.at (date_of F date_str))
        else newest? (keep is_candidate entries)
  ]

  -- `data.get("collector") or data.get("control_id") or sub.name`
  abbrev pub named_collector : String → Fields F.Float → Val F.Float
  named_collector sub_name payload =
      or_value F (get payload "collector" null)
        (or_value F (get payload "control_id" null) (str sub_name))

abbrev pub is_str : {F : Type 0} → Val F → Bool
is_str (str _) = true
is_str _ = false

-- `a == b` of two keys that are no texts.
module _ (F : Floats) (eq_key : Val F.Float → Val F.Float → Bool) where
  abbrev pub same_key : Val F.Float → Val F.Float → Bool
  same_key (str s) k = is_text k s
  same_key key k = not (is_str k) && eq_key key k

  -- `evidence_by_collector[key] = payload`
  unfoldable pub put : Val F.Float → Fields F.Float → EvidenceMap F → EvidenceMap F
  put key payload [] = (key, payload) ∷ []
  put key payload ((k, d) ∷ evidence) =
      let rest = put key payload evidence in
      if same_key key k then (k, payload) ∷ evidence else (k, d) ∷ rest

  -- `if key in canonical_map:`
  unfoldable pub put_canonical : Val F.Float → Fields F.Float → EvidenceMap F → EvidenceMap F
  unfolding put
  put_canonical key payload evidence = elim (canonical F key) [
    | some name ↦ put (str name) payload evidence
    | none ↦ evidence
  ]

  -- From `ctrl_id` on.
  unfoldable pub put_control :
      Val F.Float → Val F.Float → Fields F.Float → EvidenceMap F → EvidenceMap F
  unfolding put put_canonical truthy
  put_control ctrl_id collector payload evidence =
      if truthy F ctrl_id
      then elim (hashed F ctrl_id) [
        | ok id ↦
            put_canonical collector payload (put_canonical id payload (put id payload evidence))
        | raise _ ↦ evidence
      ]
      else put_canonical collector payload evidence

  -- The body of the `try` from where the report is a dictionary; what it put before an exception
  -- stays.
  unfoldable pub put_report : String → Fields F.Float → EvidenceMap F → EvidenceMap F
  unfolding put put_control truthy get
  put_report sub_name payload evidence = elim (hashed F (named_collector F sub_name payload)) [
    | ok collector ↦
        put_control (get payload "control_id" null) collector payload
          (put (str sub_name) payload (put collector payload evidence))
    | raise _ ↦ evidence
  ]

  abbrev pub put_file : String → Option (Py (Val F.Float)) → EvidenceMap F → EvidenceMap F
  put_file sub_name none evidence = evidence
  put_file sub_name (some content) evidence = elim (content >>= as_dict) [
    | ok payload ↦ put_report sub_name payload evidence
    | raise _ ↦ evidence
  ]

  -- One round of the loop over the folders, and the loop.
  unfoldable pub read_folder : Folder F → EvidenceMap F → EvidenceMap F
  unfolding put_report
  read_folder sub evidence =
      if not sub.is_dir || str_eq sub.name "manifests"
      then evidence
      else put_file sub.name (evidence_file F sub) evidence

  unfoldable pub read_folders : List (Folder F) → EvidenceMap F → EvidenceMap F
  unfolding read_folder
  read_folders [] evidence = evidence
  read_folders (sub ∷ subs) evidence = read_folders subs (read_folder sub evidence)

  abbrev pub name_if_missing : EvidenceBase F → Option String → String
  name_if_missing base date_str = elim base.entries [ none ↦ "" | some _ ↦ date_of F date_str ]

  unfoldable pub read_evidence_dir : EvidenceBase F → Option String → String × EvidenceMap F
  unfolding chosen_dir read_folders
  read_evidence_dir base date_str = elim (chosen_dir F base date_str) [
    | none ↦ (name_if_missing base date_str, [])
    | some d ↦ (d.name, read_folders d.folders [])
  ]
