-- ===== src/Python/Fixed.antt =====
-- A concrete `Floats` for tests and witnesses: hundredths of any size, with NaN and infinity.
-- It shows that the laws of `IsOrdered` can hold where some values are not ordered.
use soc2_sentinel.Base.{
  zero, suc, String, ◌<>◌, ◌≡◌, Bool, true, false, arith, str_eq, if◌then◌else◌,
}
use soc2_sentinel.Base.Int.{ℤ, pos, negsuc, ltb_ℤ, leb_ℤ, eqb_ℤ, ◌+ℤ◌, ◌-ℤ◌, ◌*ℤ◌, quot, show_int}
use soc2_sentinel.Python.{
  Py, ok, raise, value_error, overflow_error, zero_division_error, Val, str, Floats, IsOrdered,
}

pub data Fixed : Type 0 where
  nan inf : Fixed
  fin : ℤ → Fixed

abbrev lt_fixed : Fixed → Fixed → Bool
lt_fixed (fin a) (fin b) = ltb_ℤ a b
lt_fixed (fin a) inf = true
lt_fixed _ _ = false

abbrev le_fixed : Fixed → Fixed → Bool
le_fixed (fin a) (fin b) = leb_ℤ a b
le_fixed (fin a) inf = true
le_fixed inf inf = true
le_fixed _ _ = false

abbrev eq_fixed : Fixed → Fixed → Bool
eq_fixed (fin a) (fin b) = eqb_ℤ a b
eq_fixed inf inf = true
eq_fixed _ _ = false

-- An operation on finite values; anything else gives NaN.
abbrev lift : (ℤ → ℤ → ℤ) → Fixed → Fixed → Fixed
lift f (fin a) (fin b) = fin (f a b)
lift f _ _ = nan

abbrev div_hundredths : ℤ → ℤ → Py Fixed
div_hundredths a (pos zero) = raise zero_division_error
div_hundredths a (pos (suc n)) = ok (fin (quot (a *ℤ pos 100) (suc n)))
div_hundredths a (negsuc n) = ok (fin (pos 0 -ℤ quot (a *ℤ pos 100) (suc n)))

abbrev div_fixed : Fixed → Fixed → Py Fixed
div_fixed (fin a) (fin b) = div_hundredths a b
div_fixed _ _ = ok nan

abbrev to_int_fixed : Fixed → Py ℤ
to_int_fixed nan = raise value_error
to_int_fixed inf = raise overflow_error
to_int_fixed (fin a) = ok (quot a 100)

-- `float()` of the two texts that the tests use.
abbrev of_text_fixed : String → Py Fixed
of_text_fixed s =
    if str_eq s "nan" then ok nan else if str_eq s "inf" then ok inf else raise value_error

abbrev round_fixed : Fixed → Fixed
round_fixed (fin a) = fin (quot a 10 *ℤ pos 10)
round_fixed x = x

abbrev show_fixed : Fixed → String
show_fixed nan = "nan"
show_fixed inf = "inf"
show_fixed (fin a) = show_int a <> "e-2"

abbrev show_val : Val Fixed → String
show_val (str s) = s
show_val v = "value"

unfoldable pub program : Unit {0}
unfolding ◌+ℤ◌ ◌-ℤ◌ ◌*ℤ◌ quot show_int
program = tt

abbrev pub fixed : Floats
fixed = record {
  Float = Fixed;
  lit = λ n. fin (pos n);
  lt = lt_fixed;
  le = le_fixed;
  eq = eq_fixed;
  add = lift ◌+ℤ◌;
  sub = lift ◌-ℤ◌;
  mul = lift (λ a b. quot (a *ℤ b) 100);
  neg = lift (λ a b. a -ℤ b) (fin (pos 0));
  div = div_fixed;
  div_int = div_hundredths;
  of_int = λ n. ok (fin (n *ℤ pos 100));
  to_int = to_int_fixed;
  of_text = of_text_fixed;
  int_of_text = λ s. raise value_error;
  round_1 = round_fixed;
  show_1 = show_fixed;
  show = show_val;
}

lt_trans_fixed : (a b c : Fixed) → lt_fixed a b ≡ true → lt_fixed b c ≡ true → lt_fixed a c ≡ true
lt_trans_fixed (fin a) (fin b) (fin c) h k = ground arith
lt_trans_fixed _ _ _ h k = ground arith

le_trans_fixed : (a b c : Fixed) → le_fixed a b ≡ true → le_fixed b c ≡ true → le_fixed a c ≡ true
le_trans_fixed (fin a) (fin b) (fin c) h k = ground arith
le_trans_fixed _ _ _ h k = ground arith

lt-le_fixed : (a b : Fixed) → lt_fixed a b ≡ true → le_fixed a b ≡ true
lt-le_fixed (fin a) (fin b) h = ground arith
lt-le_fixed _ _ h = ground arith

lt-not_le_fixed : (a b : Fixed) → lt_fixed a b ≡ true → le_fixed b a ≡ false
lt-not_le_fixed (fin a) (fin b) h = ground arith
lt-not_le_fixed _ _ h = ground arith

pub fixed-IsOrdered : IsOrdered fixed
fixed-IsOrdered = record {
  lt_trans = lt_trans_fixed;
  le_trans = le_trans_fixed;
  lt-le = lt-le_fixed;
  lt-not_le = lt-not_le_fixed;
  lt-lit = λ m n _ _. ground arith;
  le-lit = λ m n _ _. ground arith;
}
