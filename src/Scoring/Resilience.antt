-- ===== src/Scoring/Resilience.antt =====
-- sentinel/scoring.py: `_eval_resilience`.
use soc2_sentinel.Base.{◌<>◌, Bool, true, false, not, ◌&&◌, ◌||◌, Option, none, some, [], ◌∷◌}
use soc2_sentinel.Base.{if◌then◌else◌}
use soc2_sentinel.Base.Int.{ℤ, pos, ltb_ℤ, leb_ℤ, eqb_ℤ, ◌-ℤ◌, show_int}
use soc2_sentinel.Python.{
  Py, ok, ◌>>=◌, Val, null, bool, int, Fields, end, field, get, has, is_null, Floats, truthy, min,
  mul_int,
}
use soc2_sentinel.Scoring.{
  Control, ControlScore, Tally, Assessment, safe_int, safe_float, full_marks, charge_if, note_if,
  evaluate,
}

abbrev pub resilience_control : Control
resilience_control = record {
  control_id = "A1.2";
  name = "Backup Integrity & Disaster Recovery";
  category = "Availability";
  frameworks =
      ("soc2", "A1.2") ∷ ("nist", "CP-9, CP-10") ∷ ("cmmc", "RE.L2-3.11.1") ∷ ("zt", "ZT-07") ∷ [];
  no_evidence = "No resilience testing evidence collected";
  failed_default = "Resilience testing collection failed";
  partial_evidence = "Partial evidence collection: resilience verification incomplete";
}

-- `rto_met is False` and `rto_met is None`
abbrev pub is_missed : Option Bool → Bool
is_missed (some false) = true
is_missed _ = false

abbrev pub is_unverified : Option Bool → Bool
is_unverified none = true
is_unverified (some _) = false

module _ (F : Floats) where
  open F use {lit, le}

  -- What the metrics say of backups: `success_24h`, then `jobs`.
  unfoldable pub backups_of : Fields F.Float → Py (ℤ × ℤ)
  backups_of metrics =
      let last_backup_hours = get metrics "last_backup_hours_ago" null in
      if has metrics "successful_backups_24h"
      then (do
        success_24h ← safe_int F (get metrics "successful_backups_24h" null) (pos 0)
        jobs ← safe_int F (get metrics "backup_jobs_evaluated" null) success_24h
        ok (success_24h, jobs))
      else if is_null last_backup_hours
      then ok (pos 0, pos 0)
      else (do
        hours ← safe_float F last_backup_hours (lit 99_900)
        ok ((if le hours (lit 2_400) then pos 1 else pos 0), pos 1))

  unfoldable pub restore_tested_of : Fields F.Float → Py Bool
  restore_tested_of metrics =
      let restore_days = get metrics "last_restore_test_days_ago" null in
      if has metrics "restore_tested_90d"
      then ok (truthy F (get metrics "restore_tested_90d" null))
      else if is_null restore_days
      then ok false
      else (do days ← safe_int F restore_days (pos 999); ok (leb_ℤ days (pos 90)))

  -- `None if raw is None else bool(raw)`
  unfoldable pub target_of : Val F.Float → Option Bool
  target_of raw = if is_null raw then none else some (truthy F raw)

  -- The deductions, from `score = 100.0` on.
  unfoldable pub tally_resilience : ℤ → ℤ → ℤ → Bool → Option Bool → Option Bool → Py (Tally F)
  unfolding ◌-ℤ◌
  tally_resilience success_24h jobs failed_30d restore_tested rto_met rpo_met = do
    let idle = eqb_ℤ jobs (pos 0) || eqb_ℤ success_24h (pos 0)
    t₁ ←
        charge_if F idle
          (ok (lit 4_000, "No verified successful backup jobs executed in the last 24 hours"))
          (full_marks F)
    t₂ ←
        charge_if F (not idle && ltb_ℤ success_24h jobs)
          (ok (
            lit 2_000,
            show_int (jobs -ℤ success_24h)
                <> ("/" <> (show_int jobs <> " backup jobs failed in the last 24-hour cycle")),
          ))
          t₁
    t₃ ←
        charge_if F (ltb_ℤ (pos 0) failed_30d)
          (do
            product ← mul_int F failed_30d (lit 500)
            ok (
              min F (lit 2_500) product,
              show_int failed_30d <> " backup job failures recorded in 30-day monitoring window",
            ))
          t₂
    t₄ ←
        charge_if F (not restore_tested)
          (ok (
            lit 3_000,
            "Disaster recovery restore test has not been executed within the 90-day SLA window",
          ))
          t₃
    t₅ ←
        charge_if F (is_missed rto_met)
          (ok (lit 1_500, "Recovery Time Objective (RTO) target was not met")) t₄
    let t₆ =
        note_if F (is_unverified rto_met)
          "Recovery Time Objective (RTO) attainment was not verified" t₅
    t₇ ←
        charge_if F (is_missed rpo_met)
          (ok (lit 1_500, "Recovery Point Objective (RPO) target was not met")) t₆
    ok (
        note_if F (is_unverified rpo_met)
          "Recovery Point Objective (RPO) attainment was not verified" t₇)

  -- What the metrics say, before any deduction.
  unfoldable pub read_resilience :
      Fields F.Float → Py (ℤ × (ℤ × ℤ) × Bool × Option Bool × Option Bool)
  read_resilience metrics = do
    failed_30d ← safe_int F (get metrics "backup_jobs_failed_30d" null) (pos 0)
    backups ← backups_of metrics
    restore_tested ← restore_tested_of metrics
    let rto_met = target_of (get metrics "rto_target_met" null)
    let rpo_met = target_of (get metrics "rpo_target_met" null)
    ok (failed_30d, backups, restore_tested, rto_met, rpo_met)

  unfoldable pub assess_resilience : Fields F.Float → Fields F.Float → Py (Assessment F)
  assess_resilience evidence metrics = do
    (failed_30d, backups, restore_tested, rto_met, rpo_met) ← read_resilience metrics
    tally ← tally_resilience backups.0 backups.1 failed_30d restore_tested rto_met rpo_met
    ok (record {
      tally = tally;
      summary = field "jobs_evaluated" (int backups.1) (
          field "success_24h" (int backups.0)
            (field "restore_tested_90d" (bool restore_tested) end));
    })

  unfoldable pub eval_resilience : Option (Fields F.Float) → Py (ControlScore F)
  eval_resilience = evaluate F resilience_control assess_resilience
