-- ===== src/Scoring/ZeroTrust.antt =====
-- sentinel/scoring.py: `_eval_zero_trust`.
use soc2_sentinel.Base.{String, ◌<>◌, Bool, true, false, ◌&&◌, Option, [], ◌∷◌, ◌++◌}
use soc2_sentinel.Base.{if◌then◌else◌}
use soc2_sentinel.Base.Int.{ℤ, pos, ltb_ℤ, ◌-ℤ◌, show_int}
use soc2_sentinel.Python.{
  Py, ok, ◌>>=◌, bool, int, float, dict, Fields, end, field, get, as_dict, Floats, truthy,
}
use soc2_sentinel.Scoring.{
  Control, ControlScore, Tally, Assessment, safe_int, safe_float, note_if, evaluate,
}

abbrev pub zero_trust_control : Control
zero_trust_control = record {
  control_id = "ZT-1";
  name = "Zero Trust Continuous Verification";
  category = "Security";
  frameworks =
      ("soc2", "CC6.1, CC6.2")
      ∷ ("nist", "AC-2, IA-2, SC-7")
      ∷ ("cmmc", "AC.L2-3.1.3")
      ∷ ("zt", "ZT-ALL")
      ∷ [];
  no_evidence = "No Zero Trust continuous verification evidence collected";
  failed_default = "Zero trust continuous verification failed";
  partial_evidence = "Partial evidence collection: Zero Trust dynamic checks partially evaluated";
}

module _ (F : Floats) where
  open F use {lit, lt, eq, add, mul, div_int}

  -- `if test: score += 25.0` / `else: findings.append(message)`
  unfoldable pub award_or_note : Bool → String → Tally F → Tally F
  award_or_note true message t = record t { score = add t.score (lit 2_500) }
  award_or_note false message t = record t { findings = t.findings ++ (message ∷ []) }

  -- The branch for `checks_total > 0`.
  unfoldable pub tally_checks : ℤ → ℤ → Py (Tally F)
  unfolding ◌-ℤ◌
  tally_checks checks_passed checks_total = do
    quotient ← div_int checks_passed checks_total
    ok (
        note_if F (ltb_ℤ checks_passed checks_total)
          (show_int (checks_total -ℤ checks_passed)
            <> ("/" <> (show_int checks_total <> " zero trust verification checks failed")))
          (record { score = mul quotient (lit 10_000); findings = [] }))

  -- The branch without checks: four attributes, and the maturity score if none of them holds.
  unfoldable pub tally_attributes : Bool → Bool → Bool → Bool → F.Float → Tally F
  tally_attributes id_verified device_health least_priv continuous_mon raw_maturity =
      let t =
        award_or_note continuous_mon "Continuous automated behavioral verification is not active" (
          award_or_note least_priv
            "Just-In-Time / Least Privilege micro-segmentation is not fully enforced"
            (award_or_note device_health
              "Device posture and endpoint health verification telemetry missing"
              (award_or_note id_verified "Continuous dynamic identity verification is not enforced"
                (record { score = lit 0; findings = [] })))) in
      if lt (lit 0) raw_maturity && eq t.score (lit 0)
      then record t { score = mul raw_maturity (lit 2_500) }
      else t

  abbrev summary_of : Bool → Bool → Bool → Fields F.Float
  summary_of id_verified device_health least_priv =
      field "identity_verified" (bool id_verified)
        (field "device_health" (bool device_health) (field "least_privilege" (bool least_priv) end))

  unfoldable pub assess_zero_trust : Fields F.Float → Fields F.Float → Py (Assessment F)
  assess_zero_trust evidence metrics = do
    let composite_checks = get evidence "composite_checks" (dict end)
    checks_passed ← safe_int F (get metrics "checks_passed" (int (pos 0))) (pos 0)
    checks_total ← safe_int F (get metrics "checks_total" (int (pos 0))) (pos 0)
    if ltb_ℤ (pos 0) checks_total
        then (do
          tally ← tally_checks checks_passed checks_total
          composite ← as_dict composite_checks
          ok (record {
            tally = tally;
            summary =
                summary_of (truthy F (get composite "iam_review_current" (bool true)))
                  (truthy F (get composite "session_timeout_compliant" (bool true)))
                  (truthy F (get composite "mfa_enforced" (bool true)));
          }))
        else (do
          composite ← as_dict composite_checks
          let id_verified =
              truthy F
                (get metrics "identity_verified" (get composite "iam_review_current" (bool false)))
          let device_health = truthy F (
              get metrics "device_health_checked"
                (get composite "session_timeout_compliant" (bool false)))
          let least_priv =
              truthy F
                (get metrics "least_privilege_enforced" (get composite "mfa_enforced" (bool false)))
          let continuous_mon = truthy F (
              get metrics "continuous_monitoring_active"
                (get composite "encryption_green" (bool false)))
          raw_maturity ← safe_float F (get metrics "zt_maturity_score" (float (lit 0))) (lit 0)
          ok (record {
            tally =
                tally_attributes id_verified device_health least_priv continuous_mon raw_maturity;
            summary = summary_of id_verified device_health least_priv;
          }))

  unfoldable pub eval_zero_trust : Option (Fields F.Float) → Py (ControlScore F)
  eval_zero_trust = evaluate F zero_trust_control assess_zero_trust
