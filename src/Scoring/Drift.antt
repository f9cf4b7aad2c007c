-- ===== src/Scoring/Drift.antt =====
-- sentinel/scoring.py: `_eval_config_drift`.
use soc2_sentinel.Base.{◌<>◌, ◌&&◌, Option, [], ◌∷◌}
use soc2_sentinel.Base.Int.{ℤ, pos, ltb_ℤ, eqb_ℤ, show_int}
use soc2_sentinel.Python.{Py, ok, ◌>>=◌, int, Fields, end, field, get, Floats, min, mul_int}
use soc2_sentinel.Scoring.{
  Control, ControlScore, Tally, Assessment, safe_int, full_marks, charge_if, evaluate,
}

abbrev pub drift_control : Control
drift_control = record {
  control_id = "CC6.2";
  name = "Configuration Baseline & Drift Control";
  category = "Security";
  frameworks =
      ("soc2", "CC6.2") ∷ ("nist", "CM-2, CM-3") ∷ ("cmmc", "CM.L2-3.4.1") ∷ ("zt", "ZT-04") ∷ [];
  no_evidence = "No configuration drift evidence collected";
  failed_default = "Configuration drift collection failed";
  partial_evidence = "Partial evidence collection: drift analysis incomplete";
}

module _ (F : Floats) where
  open F use {lit, mul, div_int, show_1}

  -- The deductions, from `score = 100.0` on.
  unfoldable pub tally_config_drift : ℤ → ℤ → ℤ → ℤ → Py (Tally F)
  tally_config_drift evaluated drifted open_sgs unapproved = do
    t₁ ←
        charge_if F (eqb_ℤ evaluated (pos 0))
          (ok (lit 5_000, "Zero infrastructure resources evaluated for baseline compliance"))
          (full_marks F)
    t₂ ←
        charge_if F (ltb_ℤ (pos 0) open_sgs)
          (do
            product ← mul_int F open_sgs (lit 2_000)
            ok (
              min F (lit 4_000) product,
              show_int open_sgs <> " security groups permit unrestricted 0.0.0.0/0 ingress",
            ))
          t₁
    t₃ ←
        charge_if F (ltb_ℤ (pos 0) unapproved)
          (do
            product ← mul_int F unapproved (lit 1_500)
            ok (
              min F (lit 3_000) product,
              show_int unapproved <> " unapproved infrastructure modifications detected",
            ))
          t₂
    charge_if F (ltb_ℤ (pos 0) evaluated && ltb_ℤ (pos 0) drifted)
        (do
          quotient ← div_int drifted evaluated
          let drift_rate = mul quotient (lit 10_000)
          ok (
            min F (lit 3_000) (mul drift_rate (lit 50)),
            show_int drifted
                <> ("/"
                    <> (show_int evaluated
                        <> (" evaluated resources drifted from compliance baselines ("
                            <> (show_1 drift_rate <> "%)")))),
          ))
        t₃

  -- What the metrics say, before any deduction.
  unfoldable pub read_config_drift : Fields F.Float → Py (ℤ × ℤ × ℤ × ℤ)
  read_config_drift metrics = do
    evaluated ← safe_int F (get metrics "resources_evaluated" (int (pos 0))) (pos 0)
    drifted ←
        safe_int F
          (get metrics "drifted_resources"
            (get metrics "config_noncompliant_resources" (int (pos 0))))
          (pos 0)
    open_sgs ←
        safe_int F
          (get metrics "open_security_groups" (get metrics "open_http_listeners" (int (pos 0))))
          (pos 0)
    unapproved ←
        safe_int F
          (get metrics "unapproved_changes_detected"
            (get metrics "unapproved_changes" (int (pos 0))))
          (pos 0)
    ok (evaluated, drifted, open_sgs, unapproved)

  unfoldable pub assess_config_drift : Fields F.Float → Fields F.Float → Py (Assessment F)
  assess_config_drift evidence metrics = do
    (evaluated, drifted, open_sgs, unapproved) ← read_config_drift metrics
    tally ← tally_config_drift evaluated drifted open_sgs unapproved
    ok (record {
      tally = tally;
      summary =
          field "resources_evaluated" (int evaluated)
            (field "drifted" (int drifted) (field "open_sgs" (int open_sgs) end));
    })

  unfoldable pub eval_config_drift : Option (Fields F.Float) → Py (ControlScore F)
  eval_config_drift = evaluate F drift_control assess_config_drift
