-- ===== src/Base/Order.antt =====
-- The order of texts by code points is total and transitive.
use Prim.Native.String.{String}
use Prim.Native.String.compare
use mathlib.Core.Bool.{true, false}
use mathlib.Core.Path.{◌≡◌}
use native.Mathlib.Omega.{arith}
use text.Mathlib.TextPositions.{compare_refl}
use soc2_sentinel.Base.Text.{le_text}

pub le_text_refl : (s : String) → le_text s s ≡ true
le_text_refl s = ground (arith, compare_refl s)

pub le_text_trans : (s t u : String) → le_text s t ≡ true → le_text t u ≡ true → le_text s u ≡ true
le_text_trans String.[] String.[] u h k = k
le_text_trans String.[] (String.◌∷◌ d t) String.[] h k = ground (arith, compare.nil-cons d t)
le_text_trans String.[] (String.◌∷◌ d t) (String.◌∷◌ e u) h k = ground (arith, compare.nil-cons e u)
le_text_trans (String.◌∷◌ c s) String.[] u h k = ground (arith, compare.cons-nil c s)
le_text_trans (String.◌∷◌ c s) (String.◌∷◌ d t) String.[] h k = ground (arith, compare.cons-nil d t)
le_text_trans (String.◌∷◌ c s) (String.◌∷◌ d t) (String.◌∷◌ e u) h k = ground (
  arith,
  compare.cons-cons c d s t,
  compare.cons-cons d e t u,
  compare.cons-cons c e s u,
  le_text_trans s t u,
)

pub le_text_total : (s t : String) → le_text s t ≡ false → le_text t s ≡ true
le_text_total String.[] String.[] h = le_text_refl ""
le_text_total String.[] (String.◌∷◌ d t) h = ground (arith, compare.nil-cons d t)
le_text_total (String.◌∷◌ c s) String.[] h = ground (arith, compare.nil-cons c s)
le_text_total (String.◌∷◌ c s) (String.◌∷◌ d t) h =
    ground (arith, compare.cons-cons c d s t, compare.cons-cons d c t s, le_text_total s t)
