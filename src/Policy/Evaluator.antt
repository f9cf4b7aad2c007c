-- ===== src/Policy/Evaluator.antt =====
-- `SafeExpressionEvaluator` of sentinel/policy/engine.py.
use soc2_sentinel.Base.{
  ℕ, zero, suc, ◌-◌, String, Bool, true, false, not, ◌||◌, Option, none, some, str_eq, leb,
  if◌then◌else◌,
}
use soc2_sentinel.Base.Int.{ℤ, pos, negsuc}
use soc2_sentinel.Python.{
  Py, ok, raise, value_error, unsupported_node, forbidden_syntax, ◌>>=◌, Val, null, bool, int, str,
  list, dict, Items, nil, item, get, is_null, as_dict, Floats, truthy, bool_int,
}
use soc2_sentinel.Policy.Syntax.{
  UnaryOp, op_not, op_usub, op_uadd, op_invert, BinaryOp, op_add, op_sub, op_mult, op_div, op_mod,
  op_other, op_and, op_or, CompareOp, op_eq, op_not_eq, op_lt, op_lt_e, op_gt, op_gt_e, op_in,
  op_not_in, op_is, op_is_not, Expr, constant, name, attribute, subscript, unary, binary, bool_op,
  compare, display, other, Exprs, no_exprs, exprs, Comparisons, compared, comparison, is_allowed,
}
use soc2_sentinel.Policy.Interpreter.{Runtime}

module _ {F : Type 0} where
  -- The item at a position from the front; None past the end.
  abbrev nth : Items F → ℕ → Val F
  nth nil n = null
  nth (item v vs) zero = v
  nth (item v vs) (suc n) = nth vs n

  abbrev size : Items F → ℕ
  size nil = 0
  size (item v vs) = suc (size vs)

  -- A negative position counts from the end.
  abbrev item_at : Items F → ℤ → Val F
  item_at vs (pos n) = nth vs n
  item_at vs (negsuc n) = if leb (suc n) (size vs) then nth vs (size vs - suc n) else null

  -- `val[key]`, and None where there is no such item or the key is of the wrong type.
  unfoldable pub item_of : Val F → Val F → Val F
  unfolding get
  item_of (dict d) (str k) = get d k null
  item_of (list vs) (int i) = item_at vs i
  item_of (list vs) (bool b) = item_at vs (bool_int b)
  item_of _ _ = null

module _ (F : Floats) (R : Runtime F) where
  unfoldable pub attribute_of : Val F.Float → String → Val F.Float
  unfolding get
  attribute_of (dict d) attr = get d attr null
  attribute_of v attr = R.getattr v attr

  -- The operators that are not allowed end in the error for an unsupported node.
  unfoldable pub apply_unary : UnaryOp → Val F.Float → Py (Val F.Float)
  unfolding truthy
  apply_unary op_not operand = ok (bool (not (truthy F operand)))
  apply_unary op_usub operand = R.neg operand
  apply_unary op_uadd operand = R.pos_of operand
  apply_unary op_invert operand = raise unsupported_node

  unfoldable pub apply_binary : BinaryOp → Val F.Float → Val F.Float → Py (Val F.Float)
  apply_binary op_add left right = R.add left right
  apply_binary op_sub left right = R.sub left right
  apply_binary op_mult left right = R.mult left right
  apply_binary op_div left right =
      if R.eq right (int (pos 0)) then ok (int (pos 0)) else R.div left right
  apply_binary op_mod left right =
      if R.eq right (int (pos 0)) then ok (int (pos 0)) else R.mod_of left right
  apply_binary op_other left right = raise unsupported_node

  -- Whether one link of a chain of comparisons holds.
  unfoldable pub holds : CompareOp → Val F.Float → Val F.Float → Py Bool
  holds op_eq left right = ok (R.eq left right)
  holds op_not_eq left right = ok (not (R.eq left right))
  holds op_lt left right = if is_null left || is_null right then ok false else R.lt left right
  holds op_lt_e left right = if is_null left || is_null right then ok false else R.le left right
  holds op_gt left right = if is_null left || is_null right then ok false else R.lt right left
  holds op_gt_e left right = if is_null left || is_null right then ok false else R.le right left
  holds op_in left right = if is_null right then ok false else R.is_in left right
  holds op_not_in left right =
      if is_null right then ok true else R.is_in left right >>= (λ found. ok (not found))
  holds op_is left right = ok (R.is_same left right)
  holds op_is_not left right = ok (not (R.is_same left right))

  -- `context.get(id)`; the context need not be a dictionary.
  abbrev name_in : String → Val F.Float → Py (Val F.Float)
  name_in id context = as_dict context >>= (λ d. ok (get d id null))

  unfoldable pub value_of : String → Val F.Float → Py (Val F.Float)
  unfolding get
  value_of id context =
      if str_eq id "True"
      then ok (bool true)
      else if str_eq id "False"
      then ok (bool false)
      else if str_eq id "None"
      then ok null
      else name_in id context

  unfoldable mutual
    unfolding item_of attribute_of apply_unary apply_binary holds value_of truthy

    pub eval_node : Expr F.Float → Val F.Float → Py (Val F.Float)
    eval_node (constant v) context = ok v
    eval_node (name id) context = value_of id context
    eval_node (attribute e attr) context = do v ← eval_node e context; ok (attribute_of v attr)
    eval_node (subscript e key) context = do
      v ← eval_node e context
      k ← eval_node key context
      ok (item_of v k)
    eval_node (unary op e) context = do operand ← eval_node e context; apply_unary op operand
    eval_node (binary op left right) context = do
      l ← eval_node left context
      r ← eval_node right context
      apply_binary op l r
    eval_node (bool_op op_and values) context = eval_all values context
    eval_node (bool_op op_or values) context = eval_any values context
    eval_node (compare left comparators) context = do
      l ← eval_node left context
      eval_links comparators l context
    eval_node (display elts) context = do vs ← eval_items elts context; ok (list vs)
    eval_node (other kind children) context = raise unsupported_node

    -- `all(...)` and `any(...)` stop at the first value that decides.
    pub eval_all : Exprs F.Float → Val F.Float → Py (Val F.Float)
    eval_all no_exprs context = ok (bool true)
    eval_all (exprs e es) context = do
      v ← eval_node e context
      if truthy F v then eval_all es context else ok (bool false)

    pub eval_any : Exprs F.Float → Val F.Float → Py (Val F.Float)
    eval_any no_exprs context = ok (bool false)
    eval_any (exprs e es) context = do
      v ← eval_node e context
      if truthy F v then ok (bool true) else eval_any es context

    pub eval_links : Comparisons F.Float → Val F.Float → Val F.Float → Py (Val F.Float)
    eval_links compared left context = ok (bool true)
    eval_links (comparison op e cs) left context = do
      right ← eval_node e context
      link ← holds op left right
      if link then eval_links cs right context else ok (bool false)

    pub eval_items : Exprs F.Float → Val F.Float → Py (Items F.Float)
    eval_items no_exprs context = ok nil
    eval_items (exprs e es) context = do
      v ← eval_node e context
      vs ← eval_items es context
      ok (item v vs)

  -- The tree, once parsed, is checked whole before any of it is evaluated.
  unfoldable pub evaluate_tree : Option (Expr F.Float) → Val F.Float → Py Bool
  unfolding is_allowed eval_node truthy
  evaluate_tree none context = raise value_error
  evaluate_tree (some e) context =
      if is_allowed e
      then eval_node e context >>= (λ v. ok (truthy F v))
      else raise forbidden_syntax

  unfoldable pub evaluate_condition : String → Val F.Float → Py Bool
  unfolding evaluate_tree
  evaluate_condition expression_str context = evaluate_tree (R.parse expression_str) context
