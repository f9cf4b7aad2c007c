-- ===== src/Drift/Watched.antt =====
-- Which metrics of a collector are watched for drift, as a table, and when a metric got worse.
use soc2_sentinel.Base.{
  String, ◌≡◌, Bool, false, ◌||◌, List, [], ◌∷◌, Option, none, some, if◌then◌else◌,
}
use soc2_sentinel.Base.Int.{pos}
use soc2_sentinel.Python.{Py, ok, raise, Floats, Val, int, float, Fields, get, is_text}
use soc2_sentinel.Drift.{Operators}

pub data Direction : Type 0 where
  rise percentage_drop count_drop : Direction

module _ (F : Floats) where
  pub record Watch : Type 0 where
    pub field_name : String
    -- The older name under which the metric may stand.
    pub fallback : Option String
    pub direction : Direction

  abbrev pub rises : String → Option String → Watch
  rises f g = record { field_name = f; fallback = g; direction = rise }

  abbrev pub drops : String → Option String → Watch
  drops f g = record { field_name = f; fallback = g; direction = percentage_drop }

  abbrev pub falls : String → Option String → Watch
  falls f g = record { field_name = f; fallback = g; direction = count_drop }

  abbrev pub iam_watched : List Watch
  iam_watched =
      rises "orphaned_accounts" none
      ∷ drops "mfa_enforced_percentage" (some "mfa_enforcement_percent")
      ∷ rises "privileged_users" (some "privileged_count")
      ∷ []

  abbrev pub config_watched : List Watch
  config_watched =
      rises "open_security_groups" (some "open_http_listeners")
      ∷ rises "unapproved_changes_detected" (some "unapproved_changes")
      ∷ []

  abbrev pub encryption_watched : List Watch
  encryption_watched =
      rises "unencrypted_data_stores" (some "unencrypted_cui_count")
      ∷ drops "encrypted_at_rest_percentage" none
      ∷ []

  abbrev pub logging_watched : List Watch
  logging_watched = drops "critical_events_logged_percentage" (some "log_coverage_percent") ∷ []

  abbrev pub resilience_watched : List Watch
  resilience_watched = falls "successful_backups_24h" (some "backup_jobs_success_30d") ∷ []

  -- What a collector's metrics are watched for; it is named by itself or by its control.
  unfoldable pub watched : Val F.Float → List Watch
  watched collector =
      if is_text collector "iam_access_review" || is_text collector "CC6.1"
      then iam_watched
      else if is_text collector "config_drift" || is_text collector "CC6.2"
      then config_watched
      else if is_text collector "encryption_status" || is_text collector "C1.2"
      then encryption_watched
      else if is_text collector "log_aggregator" || is_text collector "CC7.1"
      then logging_watched
      else if is_text collector "resilience_testing" || is_text collector "A1.2"
      then resilience_watched
      else []

  -- A missing percentage counts as 100, a missing number as 0.
  abbrev pub default_of : Direction → Val F.Float
  default_of percentage_drop = float (F.lit 10_000)
  default_of _ = int (pos 0)

  unfoldable pub measured : Watch → Fields F.Float → Val F.Float
  unfolding get
  measured w metrics = get metrics w.field_name (elim w.fallback [
    | none ↦ default_of w.direction
    | some older ↦ get metrics older (default_of w.direction)
  ])

  module _ (O : Operators F) (base curr : Fields F.Float) where
    abbrev pub compared_by : Direction → Val F.Float → Val F.Float → Py Bool
    compared_by rise old new = O.gt new old
    compared_by _ old new = O.lt new old

    unfoldable pub worsened : Watch → Py Bool
    unfolding measured
    worsened w = compared_by w.direction (measured w base) (measured w curr)

    abbrev is_yes : Py Bool → Bool
    is_yes (ok b) = b
    is_yes (raise _) = false

    -- The watched metrics that got worse.
    unfoldable pub worse_fields : List Watch → List String
    unfolding worsened
    worse_fields [] = []
    worse_fields (w ∷ ws) =
        let rest = worse_fields ws in if is_yes (worsened w) then w.field_name ∷ rest else rest

    abbrev pub IsShown : Direction → Val F.Float → Val F.Float → Type 0
    IsShown percentage_drop old new =
        ((s : String) × (O.show_1 old ≡ ok s)) × ((s : String) × (O.show_1 new ≡ ok s))
    IsShown _ old new = Unit

    -- The two values have an order, and percentages a text.
    pub record IsReadable (w : Watch) : Type 0 where
      pub ordered : (b : Bool) × (worsened w ≡ ok b)
      pub shown : IsShown w.direction (measured w base) (measured w curr)
