-- ===== src/Policy/Judged.antt =====
-- What a policy report says, rule by rule: the engine's counters against one verdict for each rule.
use soc2_sentinel.Base.{
  ℕ, ◌+◌, ◌<◌, ◌≤◌, String, ◌≡◌, ap, List, map, length, keep, count, arith, ltb, Bool-cases, inl,
  inr,
}
use soc2_sentinel.Base.Int.{pos}
use soc2_sentinel.Python.{ok, Fields, end, Floats}
use soc2_sentinel.Policy.{
  Runtime, PolicyRule, RuleEvaluationResult, PolicyReport, started, run_rules, compliance_score_of,
  metrics_index, evaluate_rules,
}
use soc2_sentinel.Policy.Tallied.{
  is_rule_pass, is_rule_failed, is_rule_skipped, is_critical_failure, label_of, judge,
  enabled_rules, run_rules-IsTallied,
}

module _ (F : Floats) (R : Runtime F) where
  compliance_score_of-ok :
      ((m n : ℕ) → 0 < n → m ≤ n → (x : F.Float) × (F.div_int (pos m) (pos n) ≡ ok x))
      → (passed evaluated : ℕ) → passed ≤ evaluated
      → (score : F.Float) × (compliance_score_of F R passed evaluated ≡ ok score)
  unfolding compliance_score_of
  compliance_score_of-ok total passed evaluated part = elim (Bool-cases (ltb 0 evaluated)) [
    | inl h ↦
        let (share, e) = total passed evaluated (ground (arith, h)) part in
        (F.round_1 (F.mul share (F.lit 10_000)), ground (arith, h, e))
    | inr h ↦ (F.lit 0, ground (arith, h))
  ]

  -- The report has one verdict for each enabled rule, in their order, and its counts and its list of
  -- critical failures are those of the verdicts.
  pub record IsJudged (rs : List (RuleEvaluationResult F.Float)) (report : PolicyReport F.Float)
      : Type 0 where
    pub results : report.results ≡ rs
    pub evaluated : report.rules_evaluated ≡ length rs
    pub passed : report.rules_passed ≡ count (λ r. is_rule_pass r.status) rs
    pub failed : report.rules_failed ≡ count (λ r. is_rule_failed r.status) rs
    pub skipped : report.rules_skipped ≡ count (λ r. is_rule_skipped r.status) rs
    pub critical : report.critical_failures ≡ map (label_of F) (keep (is_critical_failure F) rs)

  -- If a natural number that is not 0 always divides one that is no larger, without an exception, and
  -- the metrics can be indexed, the engine returns a report with one verdict for each enabled rule, in the order of the rules,
  -- each by that rule alone, and the counts and critical failures of the report are those of the
  -- verdicts.
  pub evaluate_rules-IsJudged :
      ((m n : ℕ) → 0 < n → m ≤ n → (x : F.Float) × (F.div_int (pos m) (pos n) ≡ ok x))
      → (rules : List PolicyRule) (collector_data : List (String × Fields F.Float))
        (now tenant provider : String) (index : Fields F.Float)
      → metrics_index F collector_data end ≡ ok index
      → (report : PolicyReport F.Float) × (evaluate_rules F R rules collector_data now tenant
            provider
          ≡ ok report)
        × IsJudged (map (judge F R index) (enabled_rules F R rules)) report
  unfolding evaluate_rules
  evaluate_rules-IsJudged total rules collector_data now tenant provider index h =
      let p = run_rules F R index rules (started F) in
      let (h₁, h₂, h₃, h₄, h₅) = run_rules-IsTallied F R index rules (started F) in
      let (score, e) = compliance_score_of-ok total p.passed (p.passed + p.failed) (omega arith) in
      let report : PolicyReport F.Float = record {
        timestamp = now;
        tenant_id = tenant;
        provider = provider;
        rules_evaluated = length p.results;
        rules_passed = p.passed;
        rules_failed = p.failed;
        rules_skipped = p.skipped;
        compliance_score = score;
        critical_failures = p.critical_failures;
        results = p.results;
      } in
      (
        report,
        ground (arith, h, e),
        record {
          results = h₁;
          evaluated = ap length h₁;
          passed = omega (arith, h₂);
          failed = omega (arith, h₃);
          skipped = omega (arith, h₄);
          critical = h₅;
        },
      )
