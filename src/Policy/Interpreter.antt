-- ===== src/Policy/Interpreter.antt =====
-- What the policy engine uses of Python's own evaluation, which is a parameter: the operators on
-- any two values, the parser, and the text of an exception.
use soc2_sentinel.Base.{String, Bool, Option}
use soc2_sentinel.Python.{Exception, Py, Val, Floats}
use soc2_sentinel.Policy.Syntax.{Expr}

pub record Runtime (F : Floats) : Type 0 where
  pub eq : Val F.Float → Val F.Float → Bool
  -- `left is right`
  pub is_same : Val F.Float → Val F.Float → Bool
  -- `left < right` and `left <= right`; TypeError for values that have no order.
  pub lt : Val F.Float → Val F.Float → Py Bool
  pub le : Val F.Float → Val F.Float → Py Bool
  -- `left in right`
  pub is_in : Val F.Float → Val F.Float → Py Bool
  pub add : Val F.Float → Val F.Float → Py (Val F.Float)
  pub sub : Val F.Float → Val F.Float → Py (Val F.Float)
  pub mult : Val F.Float → Val F.Float → Py (Val F.Float)
  pub div : Val F.Float → Val F.Float → Py (Val F.Float)
  pub mod_of : Val F.Float → Val F.Float → Py (Val F.Float)
  pub neg : Val F.Float → Py (Val F.Float)
  pub pos_of : Val F.Float → Py (Val F.Float)
  -- `getattr(value, name, None)` of a value that is no dictionary.
  pub getattr : Val F.Float → String → Val F.Float
  -- `ast.parse(text.strip(), mode="eval").body`; none for a SyntaxError.
  pub parse : String → Option (Expr F.Float)
  -- `str(exc)`
  pub describe : Exception → String
