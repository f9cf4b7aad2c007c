-- ===== src/Policy/Registry.antt =====
-- The engine's rules as a dictionary.
use soc2_sentinel.Base.{
  String, ◌≡◌, refl, sym, subst, Bool, true, false, ◌||◌, List, [], ◌∷◌, map, contains, str_eq,
  str_eq_iff, arith, Bool-cases, inl, inr, if◌then◌else◌,
}
use soc2_sentinel.Policy.{
  PolicyRule, register_rule, register_all, policy_engine, default_enterprise_rules,
}

abbrev pub ids : List PolicyRule → List String
ids = map λ rule. rule.rule_id

-- No two rules have one id.
abbrev pub IsKeyed : List PolicyRule → Type 0
IsKeyed [] = Unit
IsKeyed (rule ∷ rules) = (contains (ids rules) rule.rule_id ≡ false) × IsKeyed rules

contains_if :
    (b : Bool) (xs ys : List PolicyRule) (id : String)
    → contains (ids (if b then xs else ys)) id
      ≡ (if b then contains (ids xs) id else contains (ids ys) id)
contains_if true xs ys id = refl
contains_if false xs ys id = refl

contains-register_rule :
    (rules : List PolicyRule) (rule : PolicyRule) (id : String)
    → contains (ids (register_rule rules rule)) id
      ≡ (contains (ids rules) id || str_eq id rule.rule_id)
unfolding contains register_rule
contains-register_rule [] rule id = ground arith
contains-register_rule (r ∷ rules) rule id =
    let split =
      contains_if (str_eq r.rule_id rule.rule_id) (rule ∷ rules) (r ∷ register_rule rules rule)
        id in
    ground (
      arith,
      split,
      contains-register_rule rules rule id,
      str_eq_iff r.rule_id rule.rule_id,
      str_eq_iff id rule.rule_id,
      str_eq_iff id r.rule_id,
    )

register_rule-IsKeyed :
    (rules : List PolicyRule) (rule : PolicyRule)
    → IsKeyed rules
    → IsKeyed (register_rule rules rule)
unfolding contains register_rule
register_rule-IsKeyed [] rule h = (refl, tt)
register_rule-IsKeyed (r ∷ rules) rule (h, k) =
    let keyed = λ (b : Bool). IsKeyed (if b then rule ∷ rules else r ∷ register_rule rules rule) in
    elim (Bool-cases (str_eq r.rule_id rule.rule_id)) [
      | inl e ↦
          let same : r.rule_id ≡ rule.rule_id = (str_eq_iff r.rule_id rule.rule_id).0 e in
          subst keyed (sym e) (subst (λ id. contains (ids rules) id ≡ false) same h, k)
      | inr e ↦
          let c = contains-register_rule rules rule r.rule_id in
          subst keyed (sym e) (ground (arith, c, h, e), register_rule-IsKeyed rules rule k)
    ]

pub register_all-IsKeyed :
    (rules more : List PolicyRule) → IsKeyed rules → IsKeyed (register_all rules more)
unfolding register_all
register_all-IsKeyed rules [] h = h
register_all-IsKeyed rules (rule ∷ more) h =
    register_all-IsKeyed (register_rule rules rule) more (register_rule-IsKeyed rules rule h)

-- Whatever custom rules are given, no two rules of the engine have one id.
pub policy_engine-IsKeyed : (custom_rules : List PolicyRule) → IsKeyed (policy_engine custom_rules)
unfolding policy_engine
policy_engine-IsKeyed custom_rules =
    register_all-IsKeyed (register_all [] default_enterprise_rules) custom_rules
      (register_all-IsKeyed [] default_enterprise_rules tt)
