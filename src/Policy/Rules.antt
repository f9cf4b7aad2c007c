-- ===== src/Policy/Rules.antt =====
-- sentinel/policy/models.py: rules, results and reports.
use soc2_sentinel.Base.{ℕ, String, Bool, true, false, List, ◌==◌, keep}
use soc2_sentinel.Python.{Val}

-- The dictionary of frameworks, each with its control ids.
abbrev pub ControlIds : Type 0
ControlIds = List (String × List String)

pub record PolicyRule : Type 0 where
  pub rule_id : String
  pub name : String
  pub description : String
  pub category : String
  pub severity : String
  pub collector_target : String
  pub condition : String
  pub frameworks : ControlIds
  pub remediation_summary : String
  pub remediation_playbook : String
  pub enabled : Bool

-- The texts `"PASS"`, `"FAIL"`, `"SKIPPED"` and `"ERROR"`.
pub data RuleStatus : Type 0 where
  rule_pass rule_fail rule_skipped rule_error : RuleStatus

pub record RuleEvaluationResult (F : Type 0) : Type 0 where
  pub rule_id : String
  pub name : String
  pub category : String
  pub severity : String
  pub status : RuleStatus
  pub condition : String
  pub message : String
  pub actual_metrics : Val F
  pub frameworks : ControlIds
  pub remediation_summary : String

pub record PolicyReport (F : Type 0) : Type 0 where
  pub timestamp : String
  pub tenant_id : String
  pub provider : String
  pub rules_evaluated : ℕ
  pub rules_passed : ℕ
  pub rules_failed : ℕ
  pub rules_skipped : ℕ
  pub compliance_score : F
  pub critical_failures : List String
  pub results : List (RuleEvaluationResult F)

abbrev pub is_rule_fail : RuleStatus → Bool
is_rule_fail rule_fail = true
is_rule_fail _ = false

-- The properties `passed` and `violations` of a report.
unfoldable pub report_passed : {F : Type 0} → PolicyReport F → Bool
report_passed report = report.rules_failed == 0

unfoldable pub violations : {F : Type 0} → PolicyReport F → List (RuleEvaluationResult F)
violations report = keep (λ r. is_rule_fail r.status) report.results
