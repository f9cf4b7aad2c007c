-- ===== src/Base/Text.antt =====
-- Decimal notation, joining of texts, and code points.
use mathlib.Core.Bool.{Bool, true, false}
use Prim.Native.Nat.{Ordering, ℕ, zero, suc, ◌/◌, ◌%◌}
use Prim.Native.Char.{code}
use Prim.Native.String.{String, compare, ◌++◌ as ◌<>◌}
use mathlib.Core.Path.{◌≡◌, refl}
use mathlib.Core.List.{List, [], ◌∷◌}
use soc2_sentinel.Base.Tests.{ltb, if◌then◌else◌}

unfoldable pub digit : ℕ → String
digit zero = "0"
digit (suc zero) = "1"
digit (suc (suc zero)) = "2"
digit (suc (suc (suc zero))) = "3"
digit (suc (suc (suc (suc zero)))) = "4"
digit (suc (suc (suc (suc (suc zero))))) = "5"
digit (suc (suc (suc (suc (suc (suc zero)))))) = "6"
digit (suc (suc (suc (suc (suc (suc (suc zero))))))) = "7"
digit (suc (suc (suc (suc (suc (suc (suc (suc zero)))))))) = "8"
digit _ = "9"

-- The digits of `n` before `after`. Each round divides by ten, so `n` rounds are enough.
unfoldable pub digits_onto : ℕ → ℕ → String → String
digits_onto zero n after = digit (n % 10) <> after
digits_onto (suc fuel) n after =
    let rest = digits_onto fuel (n / 10) (digit (n % 10) <> after) in
    if ltb n 10 then digit n <> after else rest

-- `str(n)` of a number that is not negative
unfoldable pub show_nat : ℕ → String
unfolding digits_onto digit
show_nat n = digits_onto n n ""

show_nat_365 : show_nat 365 ≡ "365"
unfolding show_nat
show_nat_365 = refl

-- `x <= y` of two texts, by code points.
abbrev pub le_text : String → String → Bool
le_text s t = elim (compare s t) [ Ordering.gt ↦ false | _ ↦ true ]

-- `sep.join(texts)`
unfoldable pub join : String → List String → String
join sep [] = ""
join sep (t ∷ []) = t
join sep (t ∷ u ∷ ts) = t <> (sep <> join sep (u ∷ ts))

-- A text as the list of its code points.
abbrev pub Codes : Type 0
Codes = List ℕ

abbrev pub codes : String → Codes
codes String.[] = []
codes (String.◌∷◌ c s) = code c ∷ codes s
