-- ===== src/Status.antt =====
-- sentinel/status.py: the traffic light of each control, from its metrics.
pub mod Green
pub mod Unmeasured
mod Tests
use soc2_sentinel.Base.{String, Bool, true, false, ◌&&◌, ◌||◌, if◌then◌else◌, contains, [], ◌∷◌}
use soc2_sentinel.Base.Int.{ℤ, pos, ltb_ℤ, leb_ℤ, eqb_ℤ}
use soc2_sentinel.Python.{
  Py, ok, ◌>>=◌, or_else, Val, null, Fields, get, is_null, Floats, to_int, to_float,
}

pub data Light : Type 0 where
  green yellow red : Light

module _ (F : Floats) where
  open F use {Float, lit, lt}

  -- `_to_int(val)` and `_to_float(val)` with the default that every caller leaves: zero.
  unfoldable pub int_or_zero : Val Float → Py ℤ
  int_or_zero v = if is_null v then ok (pos 0) else or_else (to_int F v) (pos 0)

  unfoldable pub float_or_zero : Val Float → Py Float
  float_or_zero v = if is_null v then ok (lit 0) else or_else (to_float F v) (lit 0)

  -- `metrics.get(key)`
  abbrev pub metric : Fields Float → String → Val Float
  metric metrics key = get metrics key null

  -- `raw is not None and _to_int(raw) > limit`
  unfoldable pub exceeds : Val Float → ℤ → Py Bool
  exceeds raw limit =
      if is_null raw then ok false else (int_or_zero raw >>= λ n. ok (ltb_ℤ limit n))

  -- `raw is not None and _to_float(raw) < limit`, then the same with `>`.
  unfoldable pub falls_short : Val Float → Float → Py Bool
  falls_short raw limit =
      if is_null raw then ok false else (float_or_zero raw >>= λ x. ok (lt x limit))

  unfoldable pub goes_beyond : Val Float → Float → Py Bool
  goes_beyond raw limit =
      if is_null raw then ok false else (float_or_zero raw >>= λ x. ok (lt limit x))

  -- The second and third test of `status_iam_access_review`.
  unfoldable pub iam_light : Val Float → Val Float → Py Light
  iam_light orphaned_raw days_since = if is_null orphaned_raw then ok yellow else (do
    orphaned ← int_or_zero orphaned_raw
    ok (
        if ltb_ℤ (pos 7) orphaned
        then red
        else if leb_ℤ (pos 3) orphaned && leb_ℤ orphaned (pos 7)
        then yellow
        else if is_null days_since
        then yellow
        else green))

  unfoldable pub status_iam_access_review : Fields Float → Py Light
  unfolding iam_light exceeds
  status_iam_access_review metrics = do
    let orphaned_raw = metric metrics "orphaned_accounts"
    let days_since = metric metrics "days_since_last_review"
    overdue ← exceeds days_since (pos 90)
    if overdue then ok red else iam_light orphaned_raw days_since

  unfoldable pub status_encryption : Fields Float → Py Light
  status_encryption metrics = do
    total_resources ← int_or_zero (metric metrics "total_confidential_resources")
    tls_checked ← int_or_zero (metric metrics "tls_endpoints_checked")
    unencrypted ← int_or_zero (metric metrics "unencrypted_cui_count")
    weak ← int_or_zero (metric metrics "weak_cipher_endpoints")
    if ltb_ℤ (pos 0) unencrypted || ltb_ℤ (pos 0) weak
        then ok red
        else if eqb_ℤ total_resources (pos 0) || eqb_ℤ tls_checked (pos 0)
        then ok yellow
        else (do
          pending_rotation ← int_or_zero (metric metrics "keys_pending_rotation")
          ok (if ltb_ℤ (pos 0) pending_rotation then yellow else green))

  unfoldable pub status_logging : Fields Float → Py Light
  unfolding falls_short goes_beyond
  status_logging metrics = do
    let coverage_raw = metric metrics "log_coverage_percent"
    let gap_raw = metric metrics "max_gap_hours"
    failures ← int_or_zero (metric metrics "critical_control_failures_30d")
    if ltb_ℤ (pos 0) failures then ok red else (do
      low ← falls_short coverage_raw (lit 9_000)
      if low then ok red else (do
        gap ← goes_beyond gap_raw (lit 2_400)
        if gap then ok red else if is_null coverage_raw || is_null gap_raw then ok yellow else (do
          coverage ← float_or_zero coverage_raw
          ok (if lt coverage (lit 9_500) then yellow else green))))

  unfoldable pub status_config_mfa : Fields Float → Py Light
  status_config_mfa metrics = do
    let mfa_raw = metric metrics "mfa_enforcement_percent"
    weak_auth ← int_or_zero (metric metrics "weak_auth_methods")
    if ltb_ℤ (pos 0) weak_auth
        then ok red
        else if is_null mfa_raw
        then ok yellow
        else (do mfa ← float_or_zero mfa_raw; ok (if lt mfa (lit 10_000) then red else green))

  unfoldable pub status_change_management : Fields Float → Py Light
  unfolding exceeds
  status_change_management metrics = do
    let unapproved_raw = metric metrics "unapproved_changes"
    let pending_raw = metric metrics "changes_missing_rollback_test"
    unapproved ← exceeds unapproved_raw (pos 0)
    if unapproved then ok red else (do
      pending ← exceeds pending_raw (pos 0)
      ok (
          if pending
          then yellow
          else if is_null unapproved_raw || is_null pending_raw
          then yellow
          else green))

  unfoldable pub status_retention : Fields Float → Py Light
  unfolding exceeds
  status_retention metrics = do
    let overdue_raw = metric metrics "objects_past_retention"
    let missing_lifecycle_raw = metric metrics "buckets_missing_lifecycle"
    overdue ← exceeds overdue_raw (pos 0)
    if overdue then ok red else (do
      missing ← exceeds missing_lifecycle_raw (pos 0)
      ok (
          if missing
          then yellow
          else if is_null overdue_raw && is_null missing_lifecycle_raw
          then yellow
          else green))

  -- With the key `issues`, as every caller leaves it.
  unfoldable pub status_generic_pass : Fields Float → Py Light
  status_generic_pass metrics = do
    issues ← int_or_zero (metric metrics "issues")
    if ltb_ℤ (pos 0) issues then ok red else (do
      warnings ← int_or_zero (metric metrics "warnings")
      ok (if ltb_ℤ (pos 0) warnings then yellow else green))

  -- `STATUS_BY_CONTROL`, with the default of `resolve_status`.
  unfoldable pub resolve_status : String → Fields Float → Py Light
  unfolding contains
  resolve_status control_id metrics =
      if contains ("CC6.1" ∷ "CC6.3" ∷ []) control_id
      then status_iam_access_review metrics
      else if contains ("C1.1" ∷ "C1.2" ∷ []) control_id
      then status_encryption metrics
      else if contains ("CC6.2" ∷ []) control_id
      then status_config_mfa metrics
      else if contains ("CC7.1" ∷ "CC7.2" ∷ []) control_id
      then status_logging metrics
      else if contains ("CC8.1" ∷ []) control_id
      then status_change_management metrics
      else if contains ("C1.4" ∷ []) control_id
      then status_retention metrics
      else status_generic_pass metrics
