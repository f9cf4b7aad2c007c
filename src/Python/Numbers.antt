-- ===== src/Python/Numbers.antt =====
-- What the program uses of `float`, of `int()` and `float()` on texts, and of `str()`.
-- Nothing is assumed of rounding. The laws are those of IEEE comparison, which also hold for NaN, and the order
-- of the literals up to `100.0`, which are different doubles.
use soc2_sentinel.Base.{ℕ, ◌≤◌, String, ◌≡◌, Bool, true, false, ltb, leb}
use soc2_sentinel.Base.Int.{ℤ}
use soc2_sentinel.Python.Exceptions.{Py}
use soc2_sentinel.Python.Values.{Val}

pub record Floats : Type 1 where
  pub Float : Type 0
  -- The literal of that many hundredths: `lit 80` is `0.8`, `lit 10_000` is `100.0`.
  pub lit : ℕ → Float
  pub lt : Float → Float → Bool
  pub le : Float → Float → Bool
  pub eq : Float → Float → Bool
  pub add : Float → Float → Float
  pub sub : Float → Float → Float
  pub mul : Float → Float → Float
  pub neg : Float → Float
  -- `x / y`; ZeroDivisionError.
  pub div : Float → Float → Py Float
  -- `n / d` of two integers; ZeroDivisionError, OverflowError.
  pub div_int : ℤ → ℤ → Py Float
  -- `float(n)`; OverflowError.
  pub of_int : ℤ → Py Float
  -- `int(x)`; ValueError at NaN, OverflowError at an infinity.
  pub to_int : Float → Py ℤ
  -- `float(s)` and `int(s)`; ValueError.
  pub of_text : String → Py Float
  pub int_of_text : String → Py ℤ
  -- `round(x, 1)`
  pub round_1 : Float → Float
  -- `f"{x:.1f}"`
  pub show_1 : Float → String
  -- `str(v)`
  pub show : Val Float → String

pub record IsOrdered (F : Floats) : Type 0 where
  pub lt_trans : (a b c : F.Float) → F.lt a b ≡ true → F.lt b c ≡ true → F.lt a c ≡ true
  pub le_trans : (a b c : F.Float) → F.le a b ≡ true → F.le b c ≡ true → F.le a c ≡ true
  pub lt-le : (a b : F.Float) → F.lt a b ≡ true → F.le a b ≡ true
  pub lt-not_le : (a b : F.Float) → F.lt a b ≡ true → F.le b a ≡ false
  -- Of the literals up to `100.0`.
  pub lt-lit : (m n : ℕ) → m ≤ 10_000 → n ≤ 10_000 → F.lt (F.lit m) (F.lit n) ≡ ltb m n
  pub le-lit : (m n : ℕ) → m ≤ 10_000 → n ≤ 10_000 → F.le (F.lit m) (F.lit n) ≡ leb m n
