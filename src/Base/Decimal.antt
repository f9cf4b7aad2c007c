-- ===== src/Base/Decimal.antt =====
-- Different numbers have different decimal notations.
use Prim.Native.Nat.{ℕ, zero, suc, ◌+◌, ◌-◌, ◌*◌, ◌/◌, ◌%◌, ◌≤◌, ◌<◌}
use Prim.Native.Char.{Char, code}
use Prim.Native.String.{String, ◌++◌ as ◌<>◌}
use mathlib.Core.Path.{◌≡◌, ap, ◌∙◌}
use mathlib.Core.Logic.{inl, inr}
use native.Mathlib.Omega.{arith}
use text.Mathlib.TextLemmas.{cons-append, nil-append}
use soc2_sentinel.Base.Tests.{ltb, ltb→lt, Bool-cases}
use soc2_sentinel.Base.Text.{digit, digits_onto, show_nat}

-- The number that the digits of a text continue.
pub read_onto : ℕ → String → ℕ
read_onto n String.[] = n
read_onto n (String.◌∷◌ c s) = read_onto (n * 10 + (code c - 48)) s

read_onto-char :
    (m : ℕ) (c : Char) (after : String)
    → read_onto m (String.◌∷◌ c "" <> after) ≡ read_onto (m * 10 + (code c - 48)) after
unfolding read_onto
read_onto-char m c after =
    ap (read_onto m)
      (cons-append c "" after ∙ ap (λ (s : String). String.◌∷◌ c s) (nil-append after))

read_onto-digit :
    (m d : ℕ) (after : String)
    → d < 10
    → read_onto m (digit d <> after) ≡ read_onto (m * 10 + d) after
unfolding read_onto digit
read_onto-digit m zero after h = read_onto-char m "0" after
read_onto-digit m (suc zero) after h = read_onto-char m "1" after
read_onto-digit m (suc (suc zero)) after h = read_onto-char m "2" after
read_onto-digit m (suc (suc (suc zero))) after h = read_onto-char m "3" after
read_onto-digit m (suc (suc (suc (suc zero)))) after h = read_onto-char m "4" after
read_onto-digit m (suc (suc (suc (suc (suc zero))))) after h = read_onto-char m "5" after
read_onto-digit m (suc (suc (suc (suc (suc (suc zero)))))) after h = read_onto-char m "6" after
read_onto-digit m (suc (suc (suc (suc (suc (suc (suc zero))))))) after h =
    read_onto-char m "7" after
read_onto-digit m (suc (suc (suc (suc (suc (suc (suc (suc zero)))))))) after h =
    read_onto-char m "8" after
read_onto-digit m (suc (suc (suc (suc (suc (suc (suc (suc (suc zero))))))))) after h =
    read_onto-char m "9" after
read_onto-digit m (suc (suc (suc (suc (suc (suc (suc (suc (suc (suc d)))))))))) after h =
    absurd (omega arith)

read_onto-digits_onto :
    (fuel n : ℕ) (after : String)
    → n ≤ fuel
    → read_onto 0 (digits_onto fuel n after) ≡ read_onto n after
unfolding digits_onto
read_onto-digits_onto zero n after h =
    read_onto-digit 0 (n % 10) after (omega arith)
    ∙ ap (λ (k : ℕ). read_onto k after) {x = 0 * 10 + n % 10} {y = n} (omega arith)
read_onto-digits_onto (suc fuel) n after h = elim (Bool-cases (ltb n 10)) [
  | inl small ↦
      rw (small, digits_onto)
        (read_onto-digit 0 n after (ltb→lt n 10 small)
          ∙ ap (λ (k : ℕ). read_onto k after) {x = 0 * 10 + n} {y = n} (omega arith))
  | inr large ↦
      rw (large, digits_onto)
        (read_onto-digits_onto fuel (n / 10) (digit (n % 10) <> after) (ground (arith, large))
          ∙ read_onto-digit (n / 10) (n % 10) after (omega arith)
          ∙ ap (λ (k : ℕ). read_onto k after) {x = n / 10 * 10 + n % 10} {y = n} (omega arith))
]

pub read_onto-show_nat : (n : ℕ) → read_onto 0 (show_nat n) ≡ n
unfolding show_nat read_onto
read_onto-show_nat n = read_onto-digits_onto n n "" (omega arith)

-- Zeros in front change nothing.
pub read_onto-zero : (s : String) → read_onto 0 ("0" <> s) ≡ read_onto 0 s
read_onto-zero s = read_onto-char 0 "0" s

pub read_onto-zeros : (s : String) → read_onto 0 ("00" <> s) ≡ read_onto 0 s
unfolding read_onto
read_onto-zeros s = ap (read_onto 0) (cons-append "0" "0" s) ∙ read_onto-zero s
