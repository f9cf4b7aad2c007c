-- ===== src/Policy/Tests.antt =====
-- The theorems about sentinel/policy for a rule on access reviews, with evidence that names the days
-- since the last review in another way than the rule does.
use soc2_sentinel.Base.{
  ℕ, zero, suc, ◌<◌, ◌≤◌, String, ◌≡◌, refl, Bool, true, false, List, [], ◌∷◌, map, arith, some,
}
use soc2_sentinel.Base.Int.{pos, ltb_ℤ, leb_ℤ}
use soc2_sentinel.Python.{
  Py, ok, raise, type_error, forbidden_syntax, Val, null, int, dict, Fields, end, field, get, set,
  truthy,
}
use soc2_sentinel.Python.Fixed.{fixed, Fixed}
use soc2_sentinel.Policy.{
  Runtime, op_lt_e, Expr, constant, name, compare, other, no_exprs, compared, comparison,
  is_allowed, eval_node, evaluate_tree, PolicyReport, sec_iam_003, policy_engine, index_control,
  metrics_index, evaluate_rules,
}
use soc2_sentinel.Policy.Allowed.{IsQuiet, IsSupported, evaluate_tree-IsSupported}
use soc2_sentinel.Policy.Registry.{IsKeyed, policy_engine-IsKeyed}
use soc2_sentinel.Policy.Tallied.{judge, enabled_rules}
use soc2_sentinel.Policy.Judged.{IsJudged, evaluate_rules-IsJudged}
use soc2_sentinel.Policy.Unmeasured.{evaluate_tree_missing}

abbrev Value : Type 0
Value = Val Fixed

abbrev less : Value → Value → Py Bool
less (int m) (int n) = ok (ltb_ℤ m n)
less _ _ = raise type_error

abbrev at_most : Value → Value → Py Bool
at_most (int m) (int n) = ok (leb_ℤ m n)
at_most _ _ = raise type_error

abbrev operand_error : Value → Value → Py Value
operand_error a b = raise type_error

-- `review_days <= 90`
abbrev in_time : Expr Fixed
in_time = compare (name "review_days") (comparison op_lt_e (constant (int (pos 90))) compared)

abbrev interpreter : Runtime fixed
interpreter = record {
  eq = λ a b. false;
  is_same = λ a b. false;
  lt = less;
  le = at_most;
  is_in = λ a b. raise type_error;
  add = operand_error;
  sub = operand_error;
  mult = operand_error;
  div = operand_error;
  mod_of = operand_error;
  neg = λ a. raise type_error;
  pos_of = λ a. raise type_error;
  getattr = λ v attr. null;
  parse = λ text. some in_time;
  describe = λ e. "error";
}

less-IsSupported : (a b : Value) → IsSupported (less a b)
less-IsSupported a b = ground arith

at_most-IsSupported : (a b : Value) → IsSupported (at_most a b)
at_most-IsSupported a b = ground arith

interpreter-IsQuiet : IsQuiet interpreter
interpreter-IsQuiet = record {
  lt = less-IsSupported;
  le = at_most-IsSupported;
  is_in = λ a b p. cc;
  add = λ a b p. cc;
  sub = λ a b p. cc;
  mult = λ a b p. cc;
  div = λ a b p. cc;
  mod_of = λ a b p. cc;
  neg = λ a p. cc;
  pos_of = λ a p. cc;
}

abbrev call : Expr Fixed
call = other "Call" no_exprs

evaluate_tree-IsSupported_example :
    (is_allowed call ≡ false
      → evaluate_tree fixed interpreter (some call) null ≡ raise forbidden_syntax)
    × IsSupported (evaluate_tree fixed interpreter (some call) null)
evaluate_tree-IsSupported_example =
    evaluate_tree-IsSupported fixed interpreter interpreter-IsQuiet call null

policy_engine-IsKeyed_example : IsKeyed (policy_engine (sec_iam_003 ∷ []))
policy_engine-IsKeyed_example = policy_engine-IsKeyed (sec_iam_003 ∷ [])

-- The metrics that the collector writes.
abbrev metrics : Fields Fixed
metrics = field "days_since_last_review" (int (pos 30)) end

abbrev evidence : List (String × Fields Fixed)
evidence = ("iam_access_review", field "metrics" (dict metrics) end) ∷ []

abbrev index : Fields Fixed
index = field "iam_access_review" (dict metrics) end

evidence-indexed : metrics_index fixed evidence end ≡ ok index
unfolding metrics_index index_control get set truthy
evidence-indexed = refl

div_int_total : (m n : ℕ) → 0 < n → m ≤ n → (x : Fixed) × (fixed.div_int (pos m) (pos n) ≡ ok x)
div_int_total m zero h part = absurd (omega (arith, h))
div_int_total m (suc n) h part = (_, refl)

evaluate_rules-IsJudged_example :
    (report : PolicyReport Fixed) × (evaluate_rules fixed interpreter
        (sec_iam_003 ∷ [])
        evidence
        "now"
        "default"
        "aws"
      ≡ ok report)
    × IsJudged fixed interpreter
        (map (judge fixed interpreter index) (enabled_rules fixed interpreter (sec_iam_003 ∷ [])))
        report
evaluate_rules-IsJudged_example =
    evaluate_rules-IsJudged fixed interpreter div_int_total (sec_iam_003 ∷ []) evidence "now"
      "default" "aws" index evidence-indexed

review_days-missing : get metrics "review_days" null ≡ null
unfolding get
review_days-missing = refl

ninety-eval_node :
    eval_node fixed interpreter (constant (int (pos 90))) (dict metrics) ≡ ok (int (pos 90))
unfolding eval_node
ninety-eval_node = refl

in_time-is_allowed : is_allowed in_time ≡ true
unfolding is_allowed
in_time-is_allowed = refl

-- The default rule fails although the review was 30 days ago.
evaluate_tree_missing_example :
    evaluate_tree fixed interpreter (some in_time) (dict metrics) ≡ ok false
evaluate_tree_missing_example =
    evaluate_tree_missing fixed interpreter "review_days" op_lt_e (constant (int (pos 90))) compared
      metrics (int (pos 90)) refl refl review_days-missing ninety-eval_node in_time-is_allowed
