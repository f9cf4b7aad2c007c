-- ===== src/Scoring/Logging.antt =====
-- sentinel/scoring.py: `_eval_logging`.
use soc2_sentinel.Base.{◌<>◌, Option, [], ◌∷◌}
use soc2_sentinel.Base.Int.{ℤ, pos, ltb_ℤ, eqb_ℤ, show_int}
use soc2_sentinel.Python.{Py, ok, ◌>>=◌, int, float, Fields, end, field, get, Floats, min}
use soc2_sentinel.Scoring.{
  Control, ControlScore, Tally, Assessment, safe_int, safe_float, full_marks, charge_if, evaluate,
}

abbrev pub logging_control : Control
logging_control = record {
  control_id = "CC7.1";
  name = "System Logging & Anomaly Monitoring";
  category = "Security";
  frameworks =
      ("soc2", "CC7.1")
      ∷ ("nist", "AU-2, AU-3, AU-6")
      ∷ ("cmmc", "AU.L2-3.3.1")
      ∷ ("zt", "ZT-06")
      ∷ [];
  no_evidence = "No log aggregator evidence collected";
  failed_default = "Log aggregator collection failed";
  partial_evidence = "Partial evidence collection: log continuity could not be fully verified";
}

module _ (F : Floats) where
  open F use {lit, lt, sub, mul, show_1}

  -- The deductions, from `score = 100.0` on.
  unfoldable pub tally_logging : ℤ → F.Float → ℤ → F.Float → Py (Tally F)
  tally_logging streams completeness retention gap_hours = do
    t₁ ←
        charge_if F (eqb_ℤ streams (pos 0)) (ok (lit 5_000, "No active log streams configured"))
          (full_marks F)
    t₂ ←
        charge_if F (lt completeness (lit 9_500))
          (ok (
            min F (lit 4_000) (mul (sub (lit 9_500) completeness) (lit 150)),
            "Critical event log completeness is " <> (show_1 completeness <> "% (target: >=95%)"),
          ))
          t₁
    t₃ ←
        charge_if F (ltb_ℤ retention (pos 365))
          (ok (
            lit 2_000,
            "Audit log retention is "
                <> (show_int retention <> " days (SOC2/NIST target: >=365 days)"),
          ))
          t₂
    charge_if F (lt (lit 2_400) gap_hours)
        (ok (
          lit 2_000,
          "Logging gap of " <> (show_1 gap_hours <> " hours exceeds 24h continuity threshold"),
        ))
        t₃

  -- What the metrics say, before any deduction.
  unfoldable pub read_logging : Fields F.Float → Py (ℤ × F.Float × ℤ × F.Float)
  read_logging metrics = do
    streams ←
        safe_int F (get metrics "log_streams_active" (get metrics "active_trails" (int (pos 0))))
          (pos 0)
    completeness ←
        safe_float F
          (get metrics "critical_events_logged_percentage"
            (get metrics "log_coverage_percent" (float (lit 0))))
          (lit 0)
    retention ←
        safe_int F (get metrics "retention_days" (get metrics "cui_retention_days" (int (pos 0))))
          (pos 0)
    gap_hours ←
        safe_float F (get metrics "longest_gap_hours" (get metrics "max_gap_hours" (float (lit 0))))
          (lit 0)
    ok (streams, completeness, retention, gap_hours)

  unfoldable pub assess_logging : Fields F.Float → Fields F.Float → Py (Assessment F)
  assess_logging evidence metrics = do
    (streams, completeness, retention, gap_hours) ← read_logging metrics
    tally ← tally_logging streams completeness retention gap_hours
    ok (record {
      tally = tally;
      summary =
          field "log_streams" (int streams) (
            field "completeness" (float completeness) (field "retention_days" (int retention) end));
    })

  unfoldable pub eval_logging : Option (Fields F.Float) → Py (ControlScore F)
  eval_logging = evaluate F logging_control assess_logging
