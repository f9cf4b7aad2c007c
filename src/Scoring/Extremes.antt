-- ===== src/Scoring/Extremes.antt =====
-- What the conversions do with floats that are no measurements: NaN and the infinities, which
-- `json.loads` accepts.
use soc2_sentinel.Base.{arith, ◌≡◌, refl, true, false, some, []}
use soc2_sentinel.Base.Int.{pos}
use soc2_sentinel.Python.{
  ok, raise, overflow_error, float, int, dict, Fields, end, field, get, to_int, to_float, Floats,
  IsOrdered, str,
}
use soc2_sentinel.Scoring.{
  pass, ControlScore, safe_int, safe_float, full_marks, charge_if, band, clamp, cap_partial, finish,
  evaluate,
}
use soc2_sentinel.Scoring.Iam.{iam_control, tally_iam, read_iam, assess_iam, eval_iam}
use soc2_sentinel.Scoring.Evidence.{EvidenceMap, evidence_of}
use soc2_sentinel.Scoring.Scorecard.{all_controls}

module _ (F : Floats) where
  abbrev pub mfa_evidence : F.Float → Fields F.Float
  mfa_evidence x = field "metrics" (dict (field "mfa_enforced_percentage" (float x) end)) end

  -- If a value is not below 100, as NaN is not, then evidence that gives it as the share of
  -- identities with MFA, and nothing else, passes the IAM control with the score 100 and no finding.
  pub eval_iam_unordered :
      IsOrdered F
      → (x : F.Float) → F.lt x (F.lit 10_000) ≡ false
      → (s : ControlScore F) × (eval_iam F (some (mfa_evidence x)) ≡ ok s)
        × (s.status ≡ pass)
        × (s.score ≡ F.lit 10_000)
        × (s.findings ≡ [])
  unfolding eval_iam evaluate assess_iam read_iam tally_iam safe_int safe_float to_int to_float get
      charge_if full_marks finish cap_partial clamp band
  eval_iam_unordered L x h =
      let full : F.lt (F.lit 10_000) (F.lit 10_000) ≡ false =
        L.lt-lit 10_000 10_000 (omega arith) (omega arith) in
      let some_marks : F.lt (F.lit 0) (F.lit 10_000) ≡ true =
        L.lt-lit 0 10_000 (omega arith) (omega arith) in
      (
        finish F iam_control (str "unknown") (record {
          tally = full_marks F;
          summary =
              field "orphaned_accounts" (int (pos 0))
                (field "mfa_enforced_percentage" (float x) (field "review_days" (int (pos 0)) end));
        }),
        rw h,
        rw (full, some_marks, L.le-lit 8_500 10_000 (omega arith) (omega arith)),
        rw (full, some_marks),
        refl,
      )

  abbrev pub count_evidence : F.Float → Fields F.Float → Fields F.Float
  count_evidence x rest = field "metrics" (dict (field "orphaned_accounts" (float x) rest)) end

  -- If the IAM evidence gives an infinite count of orphaned accounts (`int` of it overflows), then
  -- `_safe_int` does not catch the exception, and no scorecard is computed at all.
  pub all_controls_overflow :
      (evidence : EvidenceMap F) (x : F.Float) (rest : Fields F.Float)
      → F.to_int x ≡ raise overflow_error
      → evidence_of F evidence "iam_access_review" ≡ some (count_evidence x rest)
      → all_controls F evidence ≡ raise overflow_error
  unfolding all_controls eval_iam evaluate assess_iam read_iam safe_int to_int get
  all_controls_overflow evidence x rest h e = rw (e, h)
