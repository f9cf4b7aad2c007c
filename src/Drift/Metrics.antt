-- ===== src/Drift/Metrics.antt =====
-- `_compare_collector_metrics` of sentinel/drift.py, block by block.
use soc2_sentinel.Base.{String, ◌<>◌, Bool, true, false, ◌||◌, List, [], ◌∷◌, ◌++◌, if◌then◌else◌}
use soc2_sentinel.Base.Int.{pos}
use soc2_sentinel.Python.{Py, ok, ◌>>=◌, Floats, Val, int, float, Fields, get, is_text, as_dict}
use soc2_sentinel.Drift.Items.{Operators, DriftItem}

module _ (F : Floats) (O : Operators F) (collector control_id : Val F.Float) (now : String) where
  abbrev pub drift_item : String → String → String → Val F.Float → Val F.Float → DriftItem F
  drift_item field_name severity description old new = record {
    collector = collector;
    control_id = control_id;
    field_name = field_name;
    baseline_value = old;
    current_value = new;
    severity = severity;
    description = description;
    timestamp = now;
  }

  abbrev pub plain_text : String → Val F.Float → Val F.Float → String
  plain_text change old new = change <> (F.show old <> (" to " <> F.show new))

  abbrev pub percentage_text : String → String → String → String
  percentage_text subject old new =
      subject <> (" dropped from " <> (old <> ("% to " <> (new <> "%"))))

  -- `if new > old:` an item
  unfoldable pub increased :
      String → String → String → Val F.Float → Val F.Float → Py (List (DriftItem F))
  increased field_name severity subject old new = do
    worse ← O.gt new old
    ok (
        if worse
        then drift_item field_name severity (plain_text (subject <> " increased from ") old new) old
            new
          ∷ []
        else [])

  -- `if new < old:` an item with percentages in its text
  unfoldable pub percentage_dropped :
      String → String → String → Val F.Float → Val F.Float → Py (List (DriftItem F))
  percentage_dropped field_name severity subject old new = do
    worse ← O.lt new old
    elim worse [
      | true ↦ do
        shown_old ← O.show_1 old
        shown_new ← O.show_1 new
        ok (
            drift_item field_name severity (percentage_text subject shown_old shown_new) old new
            ∷ [])
      | false ↦ ok []
    ]

  unfoldable pub count_dropped :
      String → String → String → Val F.Float → Val F.Float → Py (List (DriftItem F))
  count_dropped field_name severity subject old new = do
    worse ← O.lt new old
    ok (
        if worse
        then drift_item field_name severity (plain_text (subject <> " dropped from ") old new) old
            new
          ∷ []
        else [])

  abbrev pub zero_count : Val F.Float
  zero_count = int (pos 0)

  abbrev pub full : Val F.Float
  full = float (F.lit 10_000)

  unfoldable pub compare_iam : Fields F.Float → Fields F.Float → Py (List (DriftItem F))
  unfolding increased percentage_dropped get
  compare_iam base curr = do
    orphaned ←
        increased "orphaned_accounts" "HIGH" "Orphaned accounts"
          (get base "orphaned_accounts" zero_count) (get curr "orphaned_accounts" zero_count)
    mfa ←
        percentage_dropped "mfa_enforced_percentage" "CRITICAL" "MFA enforcement"
          (get base "mfa_enforced_percentage" (get base "mfa_enforcement_percent" full))
          (get curr "mfa_enforced_percentage" (get curr "mfa_enforcement_percent" full))
    priv ←
        increased "privileged_users" "MEDIUM" "Privileged user count"
          (get base "privileged_users" (get base "privileged_count" zero_count))
          (get curr "privileged_users" (get curr "privileged_count" zero_count))
    ok (orphaned ++ mfa ++ priv)

  unfoldable pub compare_config : Fields F.Float → Fields F.Float → Py (List (DriftItem F))
  unfolding increased get
  compare_config base curr = do
    open_sgs ←
        increased "open_security_groups" "CRITICAL" "Open security groups with 0.0.0.0/0 ingress"
          (get base "open_security_groups" (get base "open_http_listeners" zero_count))
          (get curr "open_security_groups" (get curr "open_http_listeners" zero_count))
    unapproved ←
        increased "unapproved_changes_detected" "HIGH" "Unapproved configuration changes"
          (get base "unapproved_changes_detected" (get base "unapproved_changes" zero_count))
          (get curr "unapproved_changes_detected" (get curr "unapproved_changes" zero_count))
    ok (open_sgs ++ unapproved)

  unfoldable pub compare_encryption : Fields F.Float → Fields F.Float → Py (List (DriftItem F))
  unfolding increased percentage_dropped get
  compare_encryption base curr = do
    unenc ←
        increased "unencrypted_data_stores" "CRITICAL" "Unencrypted data stores"
          (get base "unencrypted_data_stores" (get base "unencrypted_cui_count" zero_count))
          (get curr "unencrypted_data_stores" (get curr "unencrypted_cui_count" zero_count))
    at_rest ←
        percentage_dropped "encrypted_at_rest_percentage" "HIGH" "Encryption at rest"
          (get base "encrypted_at_rest_percentage" full)
          (get curr "encrypted_at_rest_percentage" full)
    ok (unenc ++ at_rest)

  unfoldable pub compare_logging : Fields F.Float → Fields F.Float → Py (List (DriftItem F))
  unfolding percentage_dropped get
  compare_logging base curr =
      percentage_dropped "critical_events_logged_percentage" "HIGH" "Log completeness"
        (get base "critical_events_logged_percentage" (get base "log_coverage_percent" full))
        (get curr "critical_events_logged_percentage" (get curr "log_coverage_percent" full))

  unfoldable pub compare_resilience : Fields F.Float → Fields F.Float → Py (List (DriftItem F))
  unfolding count_dropped get
  compare_resilience base curr =
      count_dropped "successful_backups_24h" "HIGH" "Successful backups in 24h"
        (get base "successful_backups_24h" (get base "backup_jobs_success_30d" zero_count))
        (get curr "successful_backups_24h" (get curr "backup_jobs_success_30d" zero_count))

  -- `collector in {name, control}`
  abbrev pub is_one_of : String → String → Bool
  is_one_of name control = is_text collector name || is_text collector control

  -- The metrics need only be dictionaries where a block reads them.
  abbrev pub with_metrics :
      (Fields F.Float → Fields F.Float → Py (List (DriftItem F)))
      → Val F.Float
      → Val F.Float
      → Py (List (DriftItem F))
  with_metrics block base curr = do
    base_metrics ← as_dict base
    curr_metrics ← as_dict curr
    block base_metrics curr_metrics

  unfoldable pub compare_collector_metrics : Val F.Float → Val F.Float → Py (List (DriftItem F))
  unfolding compare_iam compare_config compare_encryption compare_logging compare_resilience
  compare_collector_metrics base curr =
      if is_one_of "iam_access_review" "CC6.1"
      then with_metrics compare_iam base curr
      else if is_one_of "config_drift" "CC6.2"
      then with_metrics compare_config base curr
      else if is_one_of "encryption_status" "C1.2"
      then with_metrics compare_encryption base curr
      else if is_one_of "log_aggregator" "CC7.1"
      then with_metrics compare_logging base curr
      else if is_one_of "resilience_testing" "A1.2"
      then with_metrics compare_resilience base curr
      else ok []
