-- ===== src/Policy/Syntax.antt =====
-- The syntax trees of conditions in sentinel/policy/engine.py, as `ast.parse` returns them, and the
-- nodes that are allowed in them. Dictionary displays are left out.
use soc2_sentinel.Base.{String, Bool, true, false, ◌&&◌}
use soc2_sentinel.Python.{Val}

pub data UnaryOp : Type 0 where
  op_not op_usub op_uadd op_invert : UnaryOp

-- `op_other` stands for the powers, shifts and bit operations.
pub data BinaryOp : Type 0 where
  op_add op_sub op_mult op_div op_mod op_other : BinaryOp

pub data BoolOp : Type 0 where
  op_and op_or : BoolOp

pub data CompareOp : Type 0 where
  op_eq op_not_eq op_lt op_lt_e op_gt op_gt_e op_in op_not_in op_is op_is_not : CompareOp

-- `display` is a list or a tuple; `other` is a node of any other class, such as a call, with the
-- nodes below it.
mutual
  pub data Expr (F : Type 0) : Type 0 where
    constant : Val F → Expr F
    name : String → Expr F
    attribute : Expr F → String → Expr F
    subscript : Expr F → Expr F → Expr F
    unary : UnaryOp → Expr F → Expr F
    binary : BinaryOp → Expr F → Expr F → Expr F
    bool_op : BoolOp → Exprs F → Expr F
    compare : Expr F → Comparisons F → Expr F
    display : Exprs F → Expr F
    other : String → Exprs F → Expr F

  pub data Exprs (F : Type 0) : Type 0 where
    no_exprs : Exprs F
    exprs : Expr F → Exprs F → Exprs F

  pub data Comparisons (F : Type 0) : Type 0 where
    compared : Comparisons F
    comparison : CompareOp → Expr F → Comparisons F → Comparisons F

abbrev pub is_allowed_unary : UnaryOp → Bool
is_allowed_unary op_invert = false
is_allowed_unary _ = true

abbrev pub is_allowed_binary : BinaryOp → Bool
is_allowed_binary op_other = false
is_allowed_binary _ = true

-- Every node that `ast.walk` yields is an instance of `ALLOWED_NODES`.
unfoldable mutual
  pub is_allowed : {F : Type 0} → Expr F → Bool
  is_allowed (constant v) = true
  is_allowed (name id) = true
  is_allowed (attribute e attr) = is_allowed e
  is_allowed (subscript e key) = is_allowed e && is_allowed key
  is_allowed (unary op e) = is_allowed_unary op && is_allowed e
  is_allowed (binary op left right) = is_allowed_binary op && (is_allowed left && is_allowed right)
  is_allowed (bool_op op values) = are_allowed values
  is_allowed (compare left comparators) = is_allowed left && are_allowed_comparisons comparators
  is_allowed (display elts) = are_allowed elts
  is_allowed (other kind children) = false

  pub are_allowed : {F : Type 0} → Exprs F → Bool
  are_allowed no_exprs = true
  are_allowed (exprs e es) = is_allowed e && are_allowed es

  pub are_allowed_comparisons : {F : Type 0} → Comparisons F → Bool
  are_allowed_comparisons compared = true
  are_allowed_comparisons (comparison op e cs) = is_allowed e && are_allowed_comparisons cs
