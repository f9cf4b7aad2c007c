-- ===== src/Policy/Engine.antt =====
-- `PolicyEngine` of sentinel/policy/engine.py. The dictionary of rules is the list of its values:
-- each rule stands under its own id.
use soc2_sentinel.Base.{
  ℕ, suc, ◌+◌, String, ◌<>◌, Bool, true, false, List, [], ◌∷◌, ◌++◌, length, ltb, str_eq, Option,
  none, some, if◌then◌else◌,
}
use soc2_sentinel.Base.Int.{pos}
use soc2_sentinel.Python.{
  Py, ok, raise, type_error, ◌>>=◌, Val, null, str, list, dict, Fields, end, get, set, is_null,
  Floats, truthy,
}
use soc2_sentinel.Policy.Interpreter.{Runtime}
use soc2_sentinel.Policy.Evaluator.{evaluate_condition}
use soc2_sentinel.Policy.Rules.{
  PolicyRule, RuleStatus, rule_pass, rule_fail, rule_skipped, rule_error, RuleEvaluationResult,
  PolicyReport,
}
use soc2_sentinel.Policy.Defaults.{default_enterprise_rules}

-- `self.rules[rule.rule_id] = rule`: in place of the rule with that id, or last.
unfoldable pub register_rule : List PolicyRule → PolicyRule → List PolicyRule
register_rule [] rule = rule ∷ []
register_rule (r ∷ rules) rule =
    let rest = register_rule rules rule in
    if str_eq r.rule_id rule.rule_id then rule ∷ rules else r ∷ rest

unfoldable pub register_all : List PolicyRule → List PolicyRule → List PolicyRule
unfolding register_rule
register_all rules [] = rules
register_all rules (r ∷ more) = register_all (register_rule rules r) more

-- The engine's rules at the start.
unfoldable pub policy_engine : List PolicyRule → List PolicyRule
unfolding register_all default_enterprise_rules
policy_engine custom_rules = register_all (register_all [] default_enterprise_rules) custom_rules

-- The loop over the items of a file. `PolicyRule(**item)` may raise; the rules before stay
-- registered, and the count is then 0.
unfoldable pub load_items : List PolicyRule → ℕ → List (Py PolicyRule) → List PolicyRule × ℕ
unfolding register_rule
load_items rules count [] = (rules, count)
load_items rules count (ok rule ∷ items) = load_items (register_rule rules rule) (suc count) items
load_items rules count (raise _ ∷ items) = (rules, 0)

-- `load_rules_from_file`: no file, text that is no JSON, JSON that is no list, or a list.
unfoldable pub load_rules_from_file :
    List PolicyRule → Option (Py (Option (List (Py PolicyRule)))) → List PolicyRule × ℕ
unfolding load_items
load_rules_from_file rules none = (rules, 0)
load_rules_from_file rules (some (raise _)) = (rules, 0)
load_rules_from_file rules (some (ok none)) = (rules, 0)
load_rules_from_file rules (some (ok (some items))) = load_items rules 0 items

module _ (F : Floats) where
  -- `if ctrl_id: metrics_by_target[ctrl_id] = metrics`. Only texts are ever looked up; a list or a
  -- dictionary cannot be a key.
  unfoldable pub index_control : Val F.Float → Val F.Float → Fields F.Float → Py (Fields F.Float)
  unfolding truthy set
  index_control (str id) metrics index =
      ok (if truthy F (str id) then set index id metrics else index)
  index_control (list vs) metrics index = if truthy F (list vs) then raise type_error else ok index
  index_control (dict d) metrics index = if truthy F (dict d) then raise type_error else ok index
  index_control _ metrics index = ok index

  -- The loop over `collector_data.items()`.
  unfoldable pub metrics_index :
      List (String × Fields F.Float) → Fields F.Float → Py (Fields F.Float)
  unfolding index_control get set
  metrics_index [] index = ok index
  metrics_index ((coll_name, payload) ∷ collector_data) index = do
    let metrics = get payload "metrics" (dict end)
    index' ← index_control (get payload "control_id" null) metrics (set index coll_name metrics)
    metrics_index collector_data index'

  -- The local variables of `evaluate`.
  pub record Progress : Type 0 where
    pub results : List (RuleEvaluationResult F.Float)
    pub passed : ℕ
    pub failed : ℕ
    pub skipped : ℕ
    pub critical_failures : List String

  abbrev pub started : Progress
  started = record { results = []; passed = 0; failed = 0; skipped = 0; critical_failures = [] }

  abbrev pub result_of :
      PolicyRule → RuleStatus → String → Val F.Float → RuleEvaluationResult F.Float
  result_of rule status message metrics = record {
    rule_id = rule.rule_id;
    name = rule.name;
    category = rule.category;
    severity = rule.severity;
    status = status;
    condition = rule.condition;
    message = message;
    actual_metrics = metrics;
    frameworks = rule.frameworks;
    remediation_summary = rule.remediation_summary;
  }

  abbrev pub critical_label : PolicyRule → String
  critical_label rule = rule.rule_id <> (": " <> rule.name)

  module _ (R : Runtime F) where
    -- A rule whose target has metrics, once its condition was evaluated.
    unfoldable pub count_outcome : PolicyRule → Val F.Float → Py Bool → Progress → Progress
    count_outcome rule metrics (ok true) p = record p {
      results = p.results ++ (result_of rule rule_pass "Condition satisfied" metrics ∷ []);
      passed = suc p.passed;
    }
    count_outcome rule metrics (ok false) p = record p {
      results =
          p.results
          ++ (result_of rule rule_fail ("Evaluation failed: " <> rule.condition) metrics ∷ []);
      failed = suc p.failed;
      critical_failures =
          if str_eq rule.severity "CRITICAL"
          then p.critical_failures ++ (critical_label rule ∷ [])
          else p.critical_failures;
    }
    count_outcome rule metrics (raise exc) p = record p {
      results =
          p.results
          ++ (result_of rule rule_error ("Evaluation error: " <> R.describe exc) metrics ∷ []);
      failed = suc p.failed;
    }

    -- The body of the loop over the rules.
    unfoldable pub run_rule : Fields F.Float → PolicyRule → Progress → Progress
    unfolding count_outcome evaluate_condition get
    run_rule index rule p =
        let metrics = get index rule.collector_target null in
        if rule.enabled
        then (if is_null metrics
            then record p {
              results =
                  p.results
                  ++ (result_of rule rule_skipped
                        ("No evidence collected for target '" <> (rule.collector_target <> "'"))
                        (dict end)
                      ∷ []);
              skipped = suc p.skipped;
            }
            else count_outcome rule metrics (evaluate_condition F R rule.condition metrics) p)
        else p

    unfoldable pub run_rules : Fields F.Float → List PolicyRule → Progress → Progress
    unfolding run_rule
    run_rules index [] p = p
    run_rules index (rule ∷ rules) p = run_rules index rules (run_rule index rule p)

    -- `round(passed / evaluated * 100.0, 1) if evaluated > 0 else 0.0`
    unfoldable pub compliance_score_of : ℕ → ℕ → Py F.Float
    compliance_score_of passed evaluated =
        if ltb 0 evaluated
        then (do
          share ← F.div_int (pos passed) (pos evaluated)
          ok (F.round_1 (F.mul share (F.lit 10_000))))
        else ok (F.lit 0)

    -- The time, the tenant and the provider are passed in.
    unfoldable pub evaluate_rules :
        List PolicyRule
        → List (String × Fields F.Float)
        → String
        → String
        → String
        → Py (PolicyReport F.Float)
    unfolding metrics_index run_rules compliance_score_of
    evaluate_rules rules collector_data now tenant provider = do
      index ← metrics_index collector_data end
      let p = run_rules index rules started
      score ← compliance_score_of p.passed (p.passed + p.failed)
      ok (record {
        timestamp = now;
        tenant_id = tenant;
        provider = provider;
        rules_evaluated = length p.results;
        rules_passed = p.passed;
        rules_failed = p.failed;
        rules_skipped = p.skipped;
        compliance_score = score;
        critical_failures = p.critical_failures;
        results = p.results;
      })
