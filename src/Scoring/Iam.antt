-- ===== src/Scoring/Iam.antt =====
-- sentinel/scoring.py: `_eval_iam`.
use soc2_sentinel.Base.{◌<>◌, Option, [], ◌∷◌, if◌then◌else◌}
use soc2_sentinel.Base.Int.{ℤ, pos, ltb_ℤ, show_int}
use soc2_sentinel.Python.{
  Py, ok, ◌>>=◌, null, int, float, Fields, end, field, get, is_null, Floats, min, mul_int,
}
use soc2_sentinel.Scoring.{
  Control, ControlScore, Tally, Assessment, safe_int, safe_float, full_marks, charge_if, evaluate,
}

abbrev pub iam_control : Control
iam_control = record {
  control_id = "CC6.1";
  name = "IAM & Access Provisioning";
  category = "Security";
  frameworks =
      ("soc2", "CC6.1") ∷ ("nist", "AC-2, AC-3") ∷ ("cmmc", "AC.L2-3.1.1") ∷ ("zt", "ZT-01") ∷ [];
  no_evidence = "No IAM access review evidence collected";
  failed_default = "IAM collection failed";
  partial_evidence = "Partial evidence collection: some IAM metrics could not be verified";
}

module _ (F : Floats) where
  open F use {lit, lt, sub, mul, show_1}

  -- The deductions, from `score = 100.0` on.
  unfoldable pub tally_iam : ℤ → F.Float → ℤ → Py (Tally F)
  tally_iam orphaned mfa review_days = do
    t₁ ←
        charge_if F (ltb_ℤ (pos 0) orphaned)
          (do
            product ← mul_int F orphaned (lit 500)
            ok (
              min F (lit 3_000) product,
              show_int orphaned <> " orphaned accounts detected requiring deprovisioning",
            ))
          (full_marks F)
    t₂ ←
        charge_if F (lt mfa (lit 10_000))
          (ok (
            min F (lit 4_000) (mul (sub (lit 10_000) mfa) (lit 80)),
            "MFA enforcement is only " <> (show_1 mfa <> "% (target: 100%)"),
          ))
          t₁
    charge_if F (ltb_ℤ (pos 90) review_days)
        (ok (
          lit 2_000,
          "IAM review overdue ("
              <> (show_int review_days <> " days since last review, max SLA: 90 days)"),
        ))
        t₂

  -- What the metrics say, before any deduction.
  unfoldable pub read_iam : Fields F.Float → Py (ℤ × F.Float × ℤ)
  read_iam metrics = do
    orphaned ← safe_int F (get metrics "orphaned_accounts" (int (pos 0))) (pos 0)
    let mfa_raw = get metrics "mfa_enforced_percentage" (get metrics "mfa_enforcement_percent" null)
    mfa ← if is_null mfa_raw then ok (lit 0) else safe_float F mfa_raw (lit 0)
    let review_days = get metrics "days_since_last_review" null
    review_days_int ← if is_null review_days then ok (pos 0) else safe_int F review_days (pos 999)
    ok (orphaned, mfa, review_days_int)

  unfoldable pub assess_iam : Fields F.Float → Fields F.Float → Py (Assessment F)
  assess_iam evidence metrics = do
    (orphaned, mfa, review_days_int) ← read_iam metrics
    tally ← tally_iam orphaned mfa review_days_int
    ok (record {
      tally = tally;
      summary = field "orphaned_accounts" (int orphaned) (
          field "mfa_enforced_percentage" (float mfa)
            (field "review_days" (int review_days_int) end));
    })

  unfoldable pub eval_iam : Option (Fields F.Float) → Py (ControlScore F)
  eval_iam = evaluate F iam_control assess_iam
