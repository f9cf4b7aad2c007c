-- ===== src/Policy/Tallied.antt =====
-- The counters of the policy engine against one verdict for each rule.
use soc2_sentinel.Base.{
  suc, ◌+◌, String, ◌<>◌, ◌≡◌, refl, sym, ap, subst, ◌∙◌, Bool, true, false, ◌&&◌, List, [], ◌∷◌,
  ◌++◌, map, keep, count, str_eq, arith, if◌then◌else◌, Bool-cases, inl, inr,
}
use mathlib.Core.List.{append-nil, append_assoc}
use soc2_sentinel.Python.{Py, ok, raise, Val, null, dict, Fields, end, get, is_null, Floats}
use soc2_sentinel.Policy.{
  Runtime, evaluate_condition, PolicyRule, RuleStatus, rule_pass, rule_fail, rule_skipped,
  rule_error, RuleEvaluationResult, is_rule_fail, Progress, result_of, count_outcome, run_rule,
  run_rules,
}

abbrev pub is_rule_pass : RuleStatus → Bool
is_rule_pass rule_pass = true
is_rule_pass _ = false

abbrev pub is_rule_failed : RuleStatus → Bool
is_rule_failed rule_fail = true
is_rule_failed rule_error = true
is_rule_failed _ = false

abbrev pub is_rule_skipped : RuleStatus → Bool
is_rule_skipped rule_skipped = true
is_rule_skipped _ = false

module _ (F : Floats) where
  -- A rule of critical severity whose condition is false.
  abbrev pub is_critical_failure : RuleEvaluationResult F.Float → Bool
  is_critical_failure r = is_rule_fail r.status && str_eq r.severity "CRITICAL"

  abbrev pub label_of : RuleEvaluationResult F.Float → String
  label_of r = r.rule_id <> (": " <> r.name)

  module _ (R : Runtime F) where
    abbrev pub verdict : PolicyRule → Val F.Float → Py Bool → RuleEvaluationResult F.Float
    verdict rule metrics (ok true) = result_of F rule rule_pass "Condition satisfied" metrics
    verdict rule metrics (ok false) =
        result_of F rule rule_fail ("Evaluation failed: " <> rule.condition) metrics
    verdict rule metrics (raise exc) =
        result_of F rule rule_error ("Evaluation error: " <> R.describe exc) metrics

    labels_if :
        (b : Bool) (labels : List String) (r : RuleEvaluationResult F.Float)
        → (if b then labels ++ (label_of r ∷ []) else labels)
          ≡ labels ++ map label_of (if b then r ∷ [] else [])
    labels_if true labels r = refl
    labels_if false labels r = sym (append-nil labels)

    -- The verdict on one enabled rule, by itself.
    unfoldable pub judge : Fields F.Float → PolicyRule → RuleEvaluationResult F.Float
    judge index rule =
        let metrics = get index rule.collector_target null in
        if is_null metrics
        then result_of F rule rule_skipped
            ("No evidence collected for target '" <> (rule.collector_target <> "'")) (dict end)
        else verdict rule metrics (evaluate_condition F R rule.condition metrics)

    -- `q` is `p` with these results added, and every counter moved on by its own.
    abbrev pub IsTallied : List (RuleEvaluationResult F.Float) → Progress F → Progress F → Type 0
    IsTallied rs p q =
        (q.results ≡ p.results ++ rs)
        × (q.passed ≡ p.passed + count (λ r. is_rule_pass r.status) rs)
        × (q.failed ≡ p.failed + count (λ r. is_rule_failed r.status) rs)
        × (q.skipped ≡ p.skipped + count (λ r. is_rule_skipped r.status) rs)
        × (q.critical_failures ≡ p.critical_failures ++ map label_of (keep is_critical_failure rs))

    count_outcome-IsTallied :
        (rule : PolicyRule) (metrics : Val F.Float) (outcome : Py Bool) (p : Progress F)
        → IsTallied (verdict rule metrics outcome ∷ []) p (count_outcome F R rule metrics outcome p)
    unfolding count_outcome
    count_outcome-IsTallied rule metrics (ok true) p =
        (refl, omega arith, omega arith, omega arith, sym (append-nil p.critical_failures))
    count_outcome-IsTallied rule metrics (ok false) p = (
      refl,
      omega arith,
      omega arith,
      omega arith,
      labels_if (str_eq rule.severity "CRITICAL") p.critical_failures
          (result_of F rule rule_fail ("Evaluation failed: " <> rule.condition) metrics),
    )
    count_outcome-IsTallied rule metrics (raise exc) p =
        (refl, omega arith, omega arith, omega arith, sym (append-nil p.critical_failures))

    -- A rule without evidence is skipped, and any other one counted by its outcome.
    abbrev skip_result : PolicyRule → RuleEvaluationResult F.Float
    skip_result rule =
        result_of F rule rule_skipped
          ("No evidence collected for target '" <> (rule.collector_target <> "'")) (dict end)

    abbrev skip_rule : PolicyRule → Progress F → Progress F
    skip_rule rule p = record p {
      results = p.results ++ (skip_result rule ∷ []);
      skipped = suc p.skipped;
    }

    judged_if :
        (b : Bool) (rule : PolicyRule) (r : RuleEvaluationResult F.Float) (p q : Progress F)
        → IsTallied (r ∷ []) p q
        → IsTallied ((if b then skip_result rule else r) ∷ []) p (if b then skip_rule rule p else q)
    judged_if true rule r p q h =
        (refl, omega arith, omega arith, omega arith, sym (append-nil p.critical_failures))
    judged_if false rule r p q h = h

    run_rule-IsTallied :
        (index : Fields F.Float) (rule : PolicyRule) (p : Progress F)
        → rule.enabled ≡ true
        → IsTallied (judge index rule ∷ []) p (run_rule F R index rule p)
    unfolding run_rule judge
    run_rule-IsTallied index rule p h =
        let metrics = get index rule.collector_target null in
        let outcome = evaluate_condition F R rule.condition metrics in
        let counted = count_outcome F R rule metrics outcome p in
        subst
          (λ e.
            IsTallied (judge index rule ∷ []) p
              (if e then (if is_null metrics then skip_rule rule p else counted) else p))
          (sym h)
          (judged_if (is_null metrics) rule (verdict rule metrics outcome) p counted
            (count_outcome-IsTallied rule metrics outcome p))

    run_rule_disabled :
        (index : Fields F.Float) (rule : PolicyRule) (p : Progress F)
        → rule.enabled ≡ false
        → run_rule F R index rule p ≡ p
    unfolding run_rule
    run_rule_disabled index rule p h = ground (arith, h)

    labels-cons :
        (b : Bool) (r : RuleEvaluationResult F.Float) (rs : List (RuleEvaluationResult F.Float))
        → map label_of (if b then r ∷ rs else rs)
          ≡ map label_of (if b then r ∷ [] else []) ++ map label_of rs
    labels-cons true r rs = refl
    labels-cons false r rs = refl

    IsTallied-cons :
        (x : RuleEvaluationResult F.Float) (ys : List (RuleEvaluationResult F.Float))
        (p q r : Progress F)
        → IsTallied (x ∷ []) p q
        → IsTallied ys q r
        → IsTallied (x ∷ ys) p r
    IsTallied-cons x ys p q r (h₁, h₂, h₃, h₄, h₅) (k₁, k₂, k₃, k₄, k₅) =
        let rest = keep is_critical_failure ys in
        let first = map label_of (if is_critical_failure x then x ∷ [] else []) in
        (
          k₁ ∙ ap (λ rs. rs ++ ys) h₁ ∙ append_assoc p.results (x ∷ []) ys,
          omega (arith, h₂, k₂),
          omega (arith, h₃, k₃),
          omega (arith, h₄, k₄),
          k₅
              ∙ ap (λ labels. labels ++ map label_of rest) h₅
              ∙ append_assoc p.critical_failures first (map label_of rest)
              ∙ ap (λ labels. p.critical_failures ++ labels)
                  (sym (labels-cons (is_critical_failure x) x rest)),
        )

    abbrev pub enabled_rules : List PolicyRule → List PolicyRule
    enabled_rules = keep λ rule. rule.enabled

    pub run_rules-IsTallied :
        (index : Fields F.Float) (rules : List PolicyRule) (p : Progress F)
        → IsTallied (map (judge index) (enabled_rules rules)) p (run_rules F R index rules p)
    unfolding run_rules
    run_rules-IsTallied index [] p = (
      sym (append-nil p.results),
      omega arith,
      omega arith,
      omega arith,
      sym (append-nil p.critical_failures),
    )
    run_rules-IsTallied index (rule ∷ rules) p =
        let rest = enabled_rules rules in
        let q = run_rule F R index rule p in
        let r = run_rules F R index rules q in
        let later = run_rules-IsTallied index rules q in
        elim (Bool-cases rule.enabled) [
          | inl e ↦
              subst (λ b. IsTallied (map (judge index) (if b then rule ∷ rest else rest)) p r)
                (sym e)
                (IsTallied-cons (judge index rule) (map (judge index) rest) p q r
                  (run_rule-IsTallied index rule p e) later)
          | inr e ↦
              subst (λ b. IsTallied (map (judge index) (if b then rule ∷ rest else rest)) p r)
                (sym e)
                (subst (λ s. IsTallied (map (judge index) rest) s r)
                  (run_rule_disabled index rule p e) later)
        ]
