-- ===== src/Policy/Unmeasured.antt =====
-- Rules over metrics that were not measured.
use soc2_sentinel.Base.{
  ℕ, ◌<◌, String, ◌≡◌, ◌≤◌, refl, ap, ◌∙◌, Bool, true, false, List, [], ◌∷◌, ◌||◌, map, keep, count,
  str_eq, some, arith,
}
use soc2_sentinel.Base.Int.{pos}
use soc2_sentinel.Python.{ok, Val, null, dict, Fields, end, get, Floats}
use soc2_sentinel.Policy.{
  Runtime, CompareOp, op_lt, op_lt_e, op_gt, op_gt_e, Expr, name, compare, Comparisons, comparison,
  is_allowed, holds, value_of, eval_node, evaluate_tree, rule_skipped, PolicyRule, PolicyReport,
  report_passed, metrics_index, evaluate_rules,
}
use soc2_sentinel.Policy.Tallied.{
  is_rule_pass, is_rule_failed, is_critical_failure, label_of, judge, enabled_rules,
}
use soc2_sentinel.Policy.Judged.{evaluate_rules-IsJudged}

-- `<`, `<=`, `>` and `>=`.
abbrev pub is_order : CompareOp → Bool
is_order op_lt = true
is_order op_lt_e = true
is_order op_gt = true
is_order op_gt_e = true
is_order _ = false

-- A name that the evaluator looks up in the metrics.
abbrev pub is_reserved : String → Bool
is_reserved id = str_eq id "True" || (str_eq id "False" || str_eq id "None")

module _ (F : Floats) (R : Runtime F) where
  holds_null :
      (op : CompareOp) (right : Val F.Float)
      → is_order op ≡ true
      → holds F R op null right ≡ ok false
  unfolding holds
  holds_null op_lt right h = refl
  holds_null op_lt_e right h = refl
  holds_null op_gt right h = refl
  holds_null op_gt_e right h = refl
  holds_null _ right h = ground arith

  value_of_missing :
      (id : String) (metrics : Fields F.Float)
      → is_reserved id ≡ false
      → get metrics id null ≡ null
      → value_of F R id (dict metrics) ≡ ok null
  unfolding value_of
  value_of_missing id metrics h k = ground (arith, h, k)

  -- A condition that starts with an order comparison of a metric that is missing, or null, is false,
  -- provided that its syntax is allowed and the value compared with can be computed.
  pub evaluate_tree_missing :
      (id : String) (op : CompareOp) (e : Expr F.Float) (cs : Comparisons F.Float)
      (metrics : Fields F.Float) (right : Val F.Float)
      → is_reserved id ≡ false
      → is_order op ≡ true
      → get metrics id null ≡ null
      → eval_node F R e (dict metrics) ≡ ok right
      → is_allowed (compare (name id) (comparison op e cs)) ≡ true
      → evaluate_tree F R (some (compare (name id) (comparison op e cs))) (dict metrics) ≡ ok false
  unfolding evaluate_tree eval_node
  evaluate_tree_missing id op e cs metrics right h o m r a =
      ground (arith, a, r, value_of_missing id metrics h m, holds_null op right o)

  judge_unobserved : (rule : PolicyRule) → (judge F R end rule).status ≡ rule_skipped
  unfolding judge get
  judge_unobserved rule = refl

  -- No verdict without evidence counts as anything but skipped.
  counts_unobserved :
      (rules : List PolicyRule)
      → let rs = map (judge F R end) rules in
        (count (λ r. is_rule_pass r.status) rs ≡ 0)
        × (count (λ r. is_rule_failed r.status) rs ≡ 0)
        × (keep (is_critical_failure F) rs ≡ [])
  unfolding judge get
  counts_unobserved [] = (refl, refl, refl)
  counts_unobserved (rule ∷ rules) =
      let (h, k, l) = counts_unobserved rules in (ground (arith, h), ground (arith, k), l)

  -- Where no evidence was collected at all, the report passes: no rule passed and none failed, and no
  -- critical failure is listed.
  pub evaluate_rules_unobserved :
      ((m n : ℕ) → 0 < n → m ≤ n → (x : F.Float) × (F.div_int (pos m) (pos n) ≡ ok x))
      → (rules : List PolicyRule) (now tenant provider : String)
      → (report : PolicyReport F.Float) × (evaluate_rules F R rules [] now tenant provider
          ≡ ok report)
        × (report_passed report ≡ true)
        × (report.rules_passed ≡ 0)
        × (report.critical_failures ≡ [])
  unfolding metrics_index report_passed
  evaluate_rules_unobserved total rules now tenant provider =
      let (report, e, j) =
        evaluate_rules-IsJudged F R total rules [] now tenant provider end refl in
      let (h, k, l) = counts_unobserved (enabled_rules F R rules) in
      (report, e, ground (arith, j.failed, k), j.passed ∙ h, j.critical ∙ ap (map (label_of F)) l)
