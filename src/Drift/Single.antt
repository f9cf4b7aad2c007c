-- ===== src/Drift/Single.antt =====
-- One test of `_compare_collector_metrics`, and several after each other: the fields of their items.
use soc2_sentinel.Base.{
  String, ◌<>◌, ◌≡◌, refl, Bool, true, false, List, [], ◌∷◌, ◌++◌, arith, if◌then◌else◌,
}
use soc2_sentinel.Python.{Py, ok, ◌>>=◌, Floats, Val, end}
use soc2_sentinel.Drift.{
  Operators, DriftItem, increased, percentage_dropped, count_dropped, drift_item, plain_text,
  percentage_text,
}
use soc2_sentinel.Drift.Watched.{percentage_drop, IsShown}

module _ (F : Floats) where
  abbrev pub fields_of : List (DriftItem F) → List String
  fields_of [] = []
  fields_of (i ∷ items) = i.field_name ∷ fields_of items

  fields_of-append :
      (xs ys : List (DriftItem F)) → fields_of (xs ++ ys) ≡ fields_of xs ++ fields_of ys
  fields_of-append [] ys = refl
  fields_of-append (x ∷ xs) ys = ground (arith, fields_of-append xs ys)

  -- A computation returns items of those fields.
  abbrev pub Reports : Py (List (DriftItem F)) → List String → Type 0
  Reports m fields = (items : List (DriftItem F)) × (m ≡ ok items) × (fields_of items ≡ fields)

  pub Reports-two :
      {m n : Py (List (DriftItem F))} {xs ys zs : List String}
      → Reports m xs
      → Reports n ys
      → xs ++ ys ≡ zs
      → Reports (m >>= λ a. n >>= λ b. ok (a ++ b)) zs
  Reports-two (a, h, ha) (b, h', hb) e =
      (a ++ b, ground (arith, h, h'), ground (arith, fields_of-append a b, ha, hb, e))

  pub Reports-three :
      {m n p : Py (List (DriftItem F))} {ws xs ys zs : List String}
      → Reports m ws
      → Reports n xs
      → Reports p ys
      → ws ++ xs ++ ys ≡ zs
      → Reports (m >>= λ a. n >>= λ b. p >>= λ c. ok (a ++ b ++ c)) zs
  Reports-three (a, h, ha) (b, h', hb) (c, h'', hc) e = (
    a ++ b ++ c,
    ground (arith, h, h', h''),
    ground (arith, fields_of-append (a ++ b) c, fields_of-append a b, ha, hb, hc, e),
  )

  module _ (O : Operators F) (c ctrl : Val F.Float) (now : String) where
    abbrev one_item : String → String → String → Val F.Float → Val F.Float → List (DriftItem F)
    one_item f s text old new = drift_item F O c ctrl now f s text old new ∷ []

    pub increased-Reports :
        (f s subject : String) (old new : Val F.Float) (b : Bool)
        → O.gt new old ≡ ok b
        → Reports (increased F O c ctrl now f s subject old new) (if b then f ∷ [] else [])
    unfolding increased
    increased-Reports f s subject old new true h = (
      one_item f s (plain_text F O c ctrl now (subject <> " increased from ") old new) old new,
      ground (arith, h),
      refl,
    )
    increased-Reports f s subject old new false h = ([], ground (arith, h), refl)

    pub count_dropped-Reports :
        (f s subject : String) (old new : Val F.Float) (b : Bool)
        → O.lt new old ≡ ok b
        → Reports (count_dropped F O c ctrl now f s subject old new) (if b then f ∷ [] else [])
    unfolding count_dropped
    count_dropped-Reports f s subject old new true h = (
      one_item f s (plain_text F O c ctrl now (subject <> " dropped from ") old new) old new,
      ground (arith, h),
      refl,
    )
    count_dropped-Reports f s subject old new false h = ([], ground (arith, h), refl)

    pub percentage_dropped-Reports :
        (f s subject : String) (old new : Val F.Float) (b : Bool)
        → O.lt new old ≡ ok b
        → IsShown F O end end percentage_drop old new
        → Reports (percentage_dropped F O c ctrl now f s subject old new) (if b then f ∷ [] else [])
    unfolding percentage_dropped
    percentage_dropped-Reports f s subject old new true h ((shown_old, h₁), (shown_new, h₂)) = (
      one_item f s (percentage_text F O c ctrl now subject shown_old shown_new) old new,
      ground (arith, h, h₁, h₂),
      refl,
    )
    percentage_dropped-Reports f s subject old new false h shown = ([], ground (arith, h), refl)
