-- ===== src/Python/Convert.antt =====
-- `int()`, `float()`, `bool()`, `min`, `max` and the arithmetic of mixed numbers.
use soc2_sentinel.Base.{Bool, true, false, not, if◌then◌else◌, str_eq}
use soc2_sentinel.Base.Int.{ℤ, pos, eqb_ℤ}
use soc2_sentinel.Python.Exceptions.{Py, ok, raise, type_error, ◌>>=◌}
use soc2_sentinel.Python.Values.{Val, null, bool, int, float, str, list, dict, nil, item, is_empty}
use soc2_sentinel.Python.Numbers.{Floats}

abbrev pub bool_int : Bool → ℤ
bool_int true = pos 1
bool_int false = pos 0

module _ (F : Floats) where
  -- `int(v)`
  unfoldable pub to_int : Val F.Float → Py ℤ
  to_int null = raise type_error
  to_int (bool b) = ok (bool_int b)
  to_int (int n) = ok n
  to_int (float x) = F.to_int x
  to_int (str s) = F.int_of_text s
  to_int (list _) = raise type_error
  to_int (dict _) = raise type_error

  -- `float(v)`
  unfoldable pub to_float : Val F.Float → Py F.Float
  to_float null = raise type_error
  to_float (bool b) = F.of_int (bool_int b)
  to_float (int n) = F.of_int n
  to_float (float x) = ok x
  to_float (str s) = F.of_text s
  to_float (list _) = raise type_error
  to_float (dict _) = raise type_error

  -- `bool(v)`
  unfoldable pub truthy : Val F.Float → Bool
  truthy null = false
  truthy (bool b) = b
  truthy (int n) = not (eqb_ℤ n (pos 0))
  truthy (float x) = not (F.eq x (F.lit 0))
  truthy (str s) = not (str_eq s "")
  truthy (list nil) = false
  truthy (list (item _ _)) = true
  truthy (dict d) = not (is_empty d)

  -- `min(a, b)` and `max(a, b)` return the first argument unless the second is better.
  abbrev pub min : F.Float → F.Float → F.Float
  min a b = if F.lt b a then b else a

  abbrev pub max : F.Float → F.Float → F.Float
  max a b = if F.lt a b then b else a

  -- `n * x` of an integer and a float
  abbrev pub mul_int : ℤ → F.Float → Py F.Float
  mul_int n x = F.of_int n >>= λ y. ok (F.mul y x)
