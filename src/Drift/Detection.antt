-- ===== src/Drift/Detection.antt =====
-- `detect_configuration_drift` of sentinel/drift.py, over the entries of the evidence folder. Its result
-- is the report and what it hands to the audit log, if anything.
use soc2_sentinel.Base.{
  ℕ, String, ◌<>◌, Bool, true, false, not, ◌&&◌, List, [], ◌∷◌, ◌++◌, Option, none, some, str_eq,
  le_text, ltb, length, count, keep, if◌then◌else◌,
}
use soc2_sentinel.Base.Int.{pos}
use soc2_sentinel.Python.{
  Py, ok, raise, key_error, ◌>>=◌, Floats, Val, int, str, dict, Fields, end, get, has, is_empty,
  as_dict, truthy, is_given,
}
use soc2_sentinel.Drift.Items.{Operators, DriftItem, DriftReport}
use soc2_sentinel.Drift.Metrics.{drift_item, compare_collector_metrics}
use soc2_sentinel.Drift.Loading.{Folder, RunEvidence, find_evidence, load_run_evidence}

module _ (F : Floats) where
  -- An entry of the evidence folder.
  pub record Run : Type 0 where
    pub name : String
    pub is_dir : Bool
    pub folders : List (Folder F)

  -- What `append_audit_event` is called with.
  pub record DriftEvent : Type 0 where
    pub drift_count : ℕ
    pub critical : ℕ
    pub target : String

  unfoldable pub insert_run : Run → List Run → List Run
  insert_run r [] = r ∷ []
  insert_run r (s ∷ runs) =
      let rest = insert_run r runs in if le_text r.name s.name then r ∷ s ∷ runs else s ∷ rest

  -- `sorted(..., key=lambda d: d.name)`, which is stable.
  unfoldable pub sorted_runs : List Run → List Run
  unfolding insert_run
  sorted_runs [] = []
  sorted_runs (r ∷ runs) = insert_run r (sorted_runs runs)

  -- `runs[-1]`, of the runs `first ∷ runs`
  unfoldable pub last_run : Run → List Run → Run
  last_run first [] = first
  last_run first (r ∷ runs) = last_run r runs

  unfoldable pub last_run? : List Run → Option Run
  unfolding last_run
  last_run? [] = none
  last_run? (r ∷ runs) = some (last_run r runs)

  -- `dirs[-2] if len(dirs) >= 2 else None`
  unfoldable pub second_last_run? : List Run → Option Run
  second_last_run? [] = none
  second_last_run? (_ ∷ []) = none
  second_last_run? (r ∷ _ ∷ []) = some r
  second_last_run? (_ ∷ s ∷ t ∷ runs) = second_last_run? (s ∷ t ∷ runs)

  unfoldable pub find_run : String → List Run → Option Run
  find_run date [] = none
  find_run date (r ∷ runs) = if str_eq r.name date then some r else find_run date runs

  abbrev pub or_run : Option Run → Option Run → Option Run
  or_run (some r) rest = some r
  or_run none rest = rest

  abbrev pub date_of : Option String → String
  date_of none = ""
  date_of (some date) = date

  unfoldable pub current_run : Option String → List Run → Option Run
  unfolding find_run last_run?
  current_run current_date dirs =
      if is_given current_date
      then or_run (find_run (date_of current_date) dirs) (last_run? dirs)
      else last_run? dirs

  unfoldable pub baseline_run : Option String → Run → List Run → Option Run
  unfolding find_run last_run? second_last_run?
  baseline_run baseline_date cur dirs =
      if is_given baseline_date
      then or_run (find_run (date_of baseline_date) dirs) (second_last_run? dirs)
      else last_run? (keep (λ d. not (str_eq d.name cur.name)) dirs)

  -- The first provider that is named.
  unfoldable pub provider_of : RunEvidence F → Val F.Float
  unfolding truthy get
  provider_of [] = str "unknown"
  provider_of ((_, ev) ∷ evidence) =
      let rest = provider_of evidence in
      let provider = get ev "provider" (str "") in if truthy F provider then provider else rest

  -- `metrics[key]`
  abbrev pub value_at : Fields F.Float → String → Py (Val F.Float)
  value_at metrics key =
      if has metrics key then ok (get metrics key (int (pos 0))) else raise key_error

  unfoldable pub empty_report : String → DriftReport F
  empty_report now = record {
    timestamp = now;
    provider = str "unknown";
    baseline_date = none;
    current_date = "none";
    drift_detected = false;
    total_drift_items = 0;
    items = [];
  }

module _ (F : Floats) (O : Operators F) (now : String) where
  unfoldable pub compare_runs : RunEvidence F → RunEvidence F → Py (List (DriftItem F))
  unfolding find_evidence compare_collector_metrics get
  compare_runs baseline [] = ok []
  compare_runs baseline ((collector, cur_payload) ∷ current) = do
    items ← elim (find_evidence F O collector baseline) [
      | some base_payload ↦
          if is_empty base_payload
          then ok []
          else compare_collector_metrics F O collector
              (get cur_payload "control_id" (str "UNKNOWN")) now
              (get base_payload "metrics" (dict end)) (get cur_payload "metrics" (dict end))
      | none ↦ ok []
    ]
    rest ← compare_runs baseline current
    ok (items ++ rest)

  -- One of the three tests without a baseline.
  unfoldable pub flagged :
      Val F.Float
      → Val F.Float
      → Fields F.Float
      → String
      → String
      → String
      → Py (List (DriftItem F))
  unfolding get has
  flagged collector control_id metrics field_name severity subject = do
    found ← O.gt (get metrics field_name (int (pos 0))) (int (pos 0))
    elim found [
      | true ↦ do
        value ← value_at F metrics field_name
        ok (
            drift_item F O collector control_id now field_name severity
              ("Initial baseline flagged " <> (F.show value <> (" " <> subject))) (int (pos 0))
              value
            ∷ [])
      | false ↦ ok []
    ]

  unfoldable pub flag_run : RunEvidence F → Py (List (DriftItem F))
  unfolding flagged get
  flag_run [] = ok []
  flag_run ((collector, cur_payload) ∷ current) = do
    metrics ← as_dict (get cur_payload "metrics" (dict end))
    open_sgs ←
        flagged collector (get cur_payload "control_id" (str "UNKNOWN")) metrics
          "open_security_groups" "CRITICAL" "open security groups"
    unencrypted ←
        flagged collector (get cur_payload "control_id" (str "UNKNOWN")) metrics
          "unencrypted_data_stores" "CRITICAL" "unencrypted data stores"
    orphaned ←
        flagged collector (get cur_payload "control_id" (str "UNKNOWN")) metrics "orphaned_accounts"
          "HIGH" "orphaned accounts"
    rest ← flag_run current
    ok (open_sgs ++ unencrypted ++ orphaned ++ rest)

  abbrev pub run_evidence : Option (Run F) → RunEvidence F
  run_evidence none = []
  run_evidence (some r) = load_run_evidence F O (some r.folders)

  abbrev pub name_of : Option (Run F) → Option String
  name_of none = none
  name_of (some r) = some r.name

  abbrev pub name_or_initial : Option (Run F) → String
  name_or_initial none = "initial"
  name_or_initial (some r) = r.name

  unfoldable pub drift_items_of : RunEvidence F → RunEvidence F → Py (List (DriftItem F))
  unfolding compare_runs flag_run
  drift_items_of [] current = flag_run current
  drift_items_of (e ∷ baseline) current = compare_runs (e ∷ baseline) current

  abbrev pub is_critical_item : DriftItem F → Bool
  is_critical_item i = str_eq i.severity "CRITICAL"

  unfoldable pub report_drift :
      Bool
      → Run F
      → Option (Run F)
      → Val F.Float
      → List (DriftItem F)
      → DriftReport F × Option (DriftEvent F)
  report_drift record_audit cur base provider drift_items = (
    record {
      timestamp = now;
      provider = provider;
      baseline_date = name_of base;
      current_date = cur.name;
      drift_detected = ltb 0 (length drift_items);
      total_drift_items = length drift_items;
      items = drift_items;
    },
    if record_audit && ltb 0 (length drift_items)
        then some (record {
          drift_count = length drift_items;
          critical = count is_critical_item drift_items;
          target = cur.name <> (" vs " <> name_or_initial base);
        })
        else none,
  )

  -- From where the two runs are known.
  unfoldable pub detect_between :
      Bool → Run F → Option (Run F) → Py (DriftReport F × Option (DriftEvent F))
  unfolding load_run_evidence provider_of drift_items_of report_drift
  detect_between record_audit cur base = do
    let current = load_run_evidence F O (some cur.folders)
    drift_items ← drift_items_of (run_evidence base) current
    ok (report_drift record_audit cur base (provider_of F current) drift_items)

  abbrev pub is_run : Run F → Bool
  is_run r = r.is_dir && not (str_eq r.name "manifests")

  -- `none` for an evidence folder that does not exist.
  unfoldable pub detect_configuration_drift :
      Option String
      → Option String
      → Bool
      → Option (List (Run F))
      → Py (DriftReport F × Option (DriftEvent F))
  unfolding sorted_runs current_run baseline_run empty_report detect_between
  detect_configuration_drift baseline_date current_date record_audit none =
      ok (empty_report F now, none)
  detect_configuration_drift baseline_date current_date record_audit (some entries) =
      let dirs = sorted_runs F (keep is_run entries) in
      elim (current_run F current_date dirs) [
        | none ↦ ok (empty_report F now, none)
        | some cur ↦ detect_between record_audit cur (baseline_run F baseline_date cur dirs)
      ]
