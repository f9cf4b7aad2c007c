-- ===== src/Policy/Allowed.antt =====
-- Conditions with syntax that is not allowed, and errors for nodes that are not supported.
use soc2_sentinel.Base.{
  String, str_eq, subst, sym, ◌≡◌, ◌≢◌, Bool, true, false, ◌&&◌, some, arith, Bool-cases, inl, inr,
  if◌then◌else◌,
}
use soc2_sentinel.Python.{
  Py, ok, raise, unsupported_node, forbidden_syntax, ◌>>=◌, Val, null, bool, int, float, str, list,
  dict, Floats, truthy, as_dict, get,
}
use soc2_sentinel.Policy.{
  Runtime, UnaryOp, BinaryOp, CompareOp, op_not, op_usub, op_uadd, op_invert, op_add, op_sub,
  op_mult, op_div, op_mod, op_other, op_and, op_or, op_eq, op_not_eq, op_lt, op_lt_e, op_gt,
  op_gt_e, op_in, op_not_in, op_is, op_is_not, Expr, constant, name, attribute, subscript, unary,
  binary, bool_op, compare, display, other, Exprs, no_exprs, exprs, Comparisons, compared,
  comparison, is_allowed, are_allowed, are_allowed_comparisons, is_allowed_unary, is_allowed_binary,
  apply_unary, apply_binary, holds, value_of, eval_node, eval_all, eval_any, eval_links, eval_items,
  evaluate_tree,
}

-- The error for an unsupported node is not raised.
abbrev pub IsSupported {ℓ} : {A : Type ℓ} → Py A → Type ℓ
IsSupported m = m ≢ raise unsupported_node

-- Python's operators do not raise the evaluator's own error.
pub record IsQuiet {F : Floats} (R : Runtime F) : Type 0 where
  pub lt : (a b : Val F.Float) → IsSupported (R.lt a b)
  pub le : (a b : Val F.Float) → IsSupported (R.le a b)
  pub is_in : (a b : Val F.Float) → IsSupported (R.is_in a b)
  pub add : (a b : Val F.Float) → IsSupported (R.add a b)
  pub sub : (a b : Val F.Float) → IsSupported (R.sub a b)
  pub mult : (a b : Val F.Float) → IsSupported (R.mult a b)
  pub div : (a b : Val F.Float) → IsSupported (R.div a b)
  pub mod_of : (a b : Val F.Float) → IsSupported (R.mod_of a b)
  pub neg : (a : Val F.Float) → IsSupported (R.neg a)
  pub pos_of : (a : Val F.Float) → IsSupported (R.pos_of a)

module _ {A B : Type 0} where
  bind-IsSupported :
      (m : Py A) (f : A → Py B)
      → IsSupported m
      → ((a : A) → IsSupported (f a))
      → IsSupported (m >>= f)
  bind-IsSupported (ok a) f h k = k a
  bind-IsSupported (raise e) f h k = λ p. h cc

module _ {A : Type 0} where
  ok-IsSupported : (a : A) → IsSupported (ok a)
  ok-IsSupported a = λ p. cc

  if-IsSupported :
      (b : Bool) (m n : Py A) → IsSupported m → IsSupported n → IsSupported (if b then m else n)
  if-IsSupported true m n h k = h
  if-IsSupported false m n h k = k

and-left : (a b : Bool) → (a && b) ≡ true → a ≡ true
and-left a b h = ground arith

and-right : (a b : Bool) → (a && b) ≡ true → b ≡ true
and-right a b h = ground arith

module _ (F : Floats) (R : Runtime F) (Q : IsQuiet R) where
  apply_unary-IsSupported :
      (op : UnaryOp) (v : Val F.Float)
      → is_allowed_unary op ≡ true
      → IsSupported (apply_unary F R op v)
  unfolding apply_unary
  apply_unary-IsSupported op_not v h = ok-IsSupported _
  apply_unary-IsSupported op_usub v h = Q.neg v
  apply_unary-IsSupported op_uadd v h = Q.pos_of v
  apply_unary-IsSupported op_invert v h = cc

  apply_binary-IsSupported :
      (op : BinaryOp) (a b : Val F.Float)
      → is_allowed_binary op ≡ true
      → IsSupported (apply_binary F R op a b)
  unfolding apply_binary
  apply_binary-IsSupported op_add a b h = Q.add a b
  apply_binary-IsSupported op_sub a b h = Q.sub a b
  apply_binary-IsSupported op_mult a b h = Q.mult a b
  apply_binary-IsSupported op_div a b h =
      if-IsSupported (R.eq b (int _)) _ _ (ok-IsSupported _) (Q.div a b)
  apply_binary-IsSupported op_mod a b h =
      if-IsSupported (R.eq b (int _)) _ _ (ok-IsSupported _) (Q.mod_of a b)
  apply_binary-IsSupported op_other a b h = cc

  holds-IsSupported : (op : CompareOp) (a b : Val F.Float) → IsSupported (holds F R op a b)
  unfolding holds
  holds-IsSupported op_eq a b = ok-IsSupported _
  holds-IsSupported op_not_eq a b = ok-IsSupported _
  holds-IsSupported op_lt a b = if-IsSupported _ _ _ (ok-IsSupported _) (Q.lt a b)
  holds-IsSupported op_lt_e a b = if-IsSupported _ _ _ (ok-IsSupported _) (Q.le a b)
  holds-IsSupported op_gt a b = if-IsSupported _ _ _ (ok-IsSupported _) (Q.lt b a)
  holds-IsSupported op_gt_e a b = if-IsSupported _ _ _ (ok-IsSupported _) (Q.le b a)
  holds-IsSupported op_in a b = if-IsSupported _ _ _ (ok-IsSupported _) (Q.is_in a b)
  holds-IsSupported op_not_in a b =
      if-IsSupported _ _ _ (ok-IsSupported _)
        (bind-IsSupported (R.is_in a b) _ (Q.is_in a b) λ found. ok-IsSupported _)
  holds-IsSupported op_is a b = ok-IsSupported _
  holds-IsSupported op_is_not a b = ok-IsSupported _

  value_of-IsSupported :
      (id : String) (context : Val F.Float) → IsSupported (value_of F R id context)
  unfolding value_of
  value_of-IsSupported id context = if-IsSupported (str_eq id "True") _ _ (ok-IsSupported _) (
      if-IsSupported (str_eq id "False") _ _ (ok-IsSupported _)
        (if-IsSupported (str_eq id "None") _ _ (ok-IsSupported _) (named context)))
    where
      named : (v : Val F.Float) → IsSupported (as_dict v >>= λ d. ok (get d id null))
      named (dict d) = ok-IsSupported _
      named null = λ p. cc
      named (bool b) = λ p. cc
      named (int n) = λ p. cc
      named (float x) = λ p. cc
      named (str s) = λ p. cc
      named (list vs) = λ p. cc

  mutual
    unfolding eval_node is_allowed

    eval_node-IsSupported :
        (e : Expr F.Float) (c : Val F.Float) → is_allowed e ≡ true → IsSupported (eval_node F R e c)
    eval_node-IsSupported (constant v) c h = ok-IsSupported _
    eval_node-IsSupported (name id) c h = value_of-IsSupported id c
    eval_node-IsSupported (attribute e attr) c h =
        bind-IsSupported (eval_node F R e c) _ (eval_node-IsSupported e c h) λ v. ok-IsSupported _
    eval_node-IsSupported (subscript e key) c h =
        bind-IsSupported (eval_node F R e c) _ (eval_node-IsSupported e c (and-left _ _ h)) λ v.
          bind-IsSupported (eval_node F R key c) _ (eval_node-IsSupported key c (and-right _ _ h))
            λ k. ok-IsSupported _
    eval_node-IsSupported (unary op e) c h =
        bind-IsSupported (eval_node F R e c) _ (eval_node-IsSupported e c (and-right _ _ h))
          λ v. apply_unary-IsSupported op v (and-left _ _ h)
    eval_node-IsSupported (binary op l r) c h =
        let both = and-right _ _ h in
        bind-IsSupported (eval_node F R l c) _ (eval_node-IsSupported l c (and-left _ _ both)) λ a.
          bind-IsSupported (eval_node F R r c) _ (eval_node-IsSupported r c (and-right _ _ both))
            λ b. apply_binary-IsSupported op a b (and-left _ _ h)
    eval_node-IsSupported (bool_op op_and es) c h = eval_all-IsSupported es c h
    eval_node-IsSupported (bool_op op_or es) c h = eval_any-IsSupported es c h
    eval_node-IsSupported (compare e cs) c h =
        bind-IsSupported (eval_node F R e c) _ (eval_node-IsSupported e c (and-left _ _ h))
          λ v. eval_links-IsSupported cs v c (and-right _ _ h)
    eval_node-IsSupported (display es) c h =
        bind-IsSupported (eval_items F R es c) _ (eval_items-IsSupported es c h)
          λ vs. ok-IsSupported _
    eval_node-IsSupported (other kind es) c h = cc

    eval_all-IsSupported :
        (es : Exprs F.Float) (c : Val F.Float)
        → are_allowed es ≡ true
        → IsSupported (eval_all F R es c)
    eval_all-IsSupported no_exprs c h = ok-IsSupported _
    eval_all-IsSupported (exprs e es) c h =
        bind-IsSupported (eval_node F R e c) _ (eval_node-IsSupported e c (and-left _ _ h)) λ v.
          if-IsSupported (truthy F v) _ _ (eval_all-IsSupported es c (and-right _ _ h))
            (ok-IsSupported _)

    eval_any-IsSupported :
        (es : Exprs F.Float) (c : Val F.Float)
        → are_allowed es ≡ true
        → IsSupported (eval_any F R es c)
    eval_any-IsSupported no_exprs c h = ok-IsSupported _
    eval_any-IsSupported (exprs e es) c h =
        bind-IsSupported (eval_node F R e c) _ (eval_node-IsSupported e c (and-left _ _ h)) λ v.
          if-IsSupported (truthy F v) _ _ (ok-IsSupported _)
            (eval_any-IsSupported es c (and-right _ _ h))

    eval_links-IsSupported :
        (cs : Comparisons F.Float) (left c : Val F.Float)
        → are_allowed_comparisons cs ≡ true
        → IsSupported (eval_links F R cs left c)
    eval_links-IsSupported compared left c h = ok-IsSupported _
    eval_links-IsSupported (comparison op e cs) left c h =
        bind-IsSupported (eval_node F R e c) _ (eval_node-IsSupported e c (and-left _ _ h)) λ right.
          bind-IsSupported (holds F R op left right) _ (holds-IsSupported op left right) λ link.
            if-IsSupported link _ _ (eval_links-IsSupported cs right c (and-right _ _ h))
              (ok-IsSupported _)

    eval_items-IsSupported :
        (es : Exprs F.Float) (c : Val F.Float)
        → are_allowed es ≡ true
        → IsSupported (eval_items F R es c)
    eval_items-IsSupported no_exprs c h = ok-IsSupported _
    eval_items-IsSupported (exprs e es) c h =
        bind-IsSupported (eval_node F R e c) _ (eval_node-IsSupported e c (and-left _ _ h)) λ v.
          bind-IsSupported (eval_items F R es c) _ (eval_items-IsSupported es c (and-right _ _ h))
            λ vs. ok-IsSupported _

  -- A condition with a node that is not allowed anywhere in it ends in the error for forbidden syntax,
  -- whatever the metrics are; and if Python's operators do not raise the evaluator's own error for an
  -- unsupported node, then no condition ends in that error.
  pub evaluate_tree-IsSupported :
      (e : Expr F.Float) (context : Val F.Float)
      → (is_allowed e ≡ false → evaluate_tree F R (some e) context ≡ raise forbidden_syntax)
        × IsSupported (evaluate_tree F R (some e) context)
  unfolding evaluate_tree
  evaluate_tree-IsSupported e context = (
    λ h. ground (arith, h),
    elim (Bool-cases (is_allowed e)) [
      | inl h ↦
          subst (λ b. IsSupported (if b then evaluated else raise forbidden_syntax)) (sym h)
            (bind-IsSupported (eval_node F R e context) _ (eval_node-IsSupported e context h)
              λ v. ok-IsSupported _)
      | inr h ↦ λ p. cc
    ],
  )
    where
      evaluated : Py Bool
      evaluated = eval_node F R e context >>= λ v. ok (truthy F v)
