-- ===== src/Scoring/Retention.antt =====
-- sentinel/scoring.py: `_eval_retention`.
use soc2_sentinel.Base.{◌<>◌, Bool, not, ◌&&◌, Option, [], ◌∷◌, if◌then◌else◌}
use soc2_sentinel.Base.Int.{ℤ, pos, ltb_ℤ, eqb_ℤ, ◌-ℤ◌, show_int}
use soc2_sentinel.Python.{
  Py, ok, ◌>>=◌, bool, int, Fields, end, field, get, Floats, truthy, min, mul_int,
}
use soc2_sentinel.Scoring.{
  Control, ControlScore, Tally, Assessment, safe_int, full_marks, charge_if, evaluate,
}

abbrev pub retention_control : Control
retention_control = record {
  control_id = "C1.4";
  name = "Data Retention & Secure Disposal";
  category = "Confidentiality";
  frameworks =
      ("soc2", "C1.4") ∷ ("nist", "MP-7, SI-12") ∷ ("cmmc", "MP.L2-3.8.7") ∷ ("zt", "ZT-05") ∷ [];
  no_evidence = "No retention check evidence collected";
  failed_default = "Data retention collection failed";
  partial_evidence = "Partial evidence collection: retention policies partially evaluated";
}

-- `max(0, n)`
abbrev pub at_least_zero : ℤ → ℤ
at_least_zero n = if ltb_ℤ (pos 0) n then n else pos 0

module _ (F : Floats) where
  open F use {lit, sub, mul, div_int}

  -- The deductions, from `score = 100.0` on.
  unfoldable pub tally_retention : ℤ → ℤ → ℤ → Bool → Py (Tally F)
  unfolding ◌-ℤ◌
  tally_retention repos past_retention compliant deletion_valid = do
    t₁ ←
        charge_if F (eqb_ℤ repos (pos 0))
          (ok
            (lit 4_000, "No data storage repositories evaluated for lifecycle retention policies"))
          (full_marks F)
    t₂ ←
        charge_if F (ltb_ℤ (pos 0) past_retention)
          (do
            product ← mul_int F past_retention (lit 1_000)
            ok (
              min F (lit 4_000) product,
              show_int past_retention <> " objects past retention window awaiting secure deletion",
            ))
          t₁
    t₃ ←
        charge_if F (ltb_ℤ (pos 0) repos && ltb_ℤ compliant repos)
          (do
            quotient ← div_int compliant repos
            let ratio = mul quotient (lit 10_000)
            ok (
              mul (sub (lit 10_000) ratio) (lit 70),
              show_int (repos -ℤ compliant)
                  <> ("/"
                      <> (show_int repos
                          <> " data storage locations lack enforced lifecycle retention rules")),
            ))
          t₂
    charge_if F (not deletion_valid)
        (ok (
          lit 2_000,
          "Data purge certificates or deletion verification receipts are invalid or absent",
        ))
        t₃

  -- What the metrics say, before any deduction.
  unfoldable pub read_retention : Fields F.Float → Py (ℤ × ℤ × ℤ × Bool)
  unfolding ◌-ℤ◌
  read_retention metrics = do
    past_retention ← safe_int F (get metrics "objects_past_retention" (int (pos 0))) (pos 0)
    repos ←
        safe_int F
          (get metrics "repositories_checked"
            (get metrics "policies_checked" (get metrics "buckets_checked" (int (pos 0)))))
          (pos 0)
    missing_lc ←
        safe_int F
          (get metrics "repositories_missing_lifecycle" (
            get metrics "buckets_missing_lifecycle"
              (get metrics "accounts_missing_lifecycle" (int (pos 0)))))
          (pos 0)
    compliant ←
        safe_int F
          (get metrics "compliant_repositories"
            (get metrics "compliant_buckets" (int (at_least_zero (repos -ℤ missing_lc)))))
          (pos 0)
    let deletion_valid = truthy F (
        get metrics "deletion_certificates_valid"
          (bool (ltb_ℤ (pos 0) repos && eqb_ℤ past_retention (pos 0))))
    ok (past_retention, repos, compliant, deletion_valid)

  unfoldable pub assess_retention : Fields F.Float → Fields F.Float → Py (Assessment F)
  assess_retention evidence metrics = do
    (past_retention, repos, compliant, deletion_valid) ← read_retention metrics
    tally ← tally_retention repos past_retention compliant deletion_valid
    ok (record {
      tally = tally;
      summary =
          field "repositories_checked" (int repos)
            (field "compliant_repositories" (int compliant) end);
    })

  unfoldable pub eval_retention : Option (Fields F.Float) → Py (ControlScore F)
  eval_retention = evaluate F retention_control assess_retention
