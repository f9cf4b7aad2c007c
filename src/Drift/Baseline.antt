-- ===== src/Drift/Baseline.antt =====
-- Which run `detect_configuration_drift` compares with when no baseline date is given.
use soc2_sentinel.Base.{
  ◌≡◌, refl, ap, true, false, not, List, [], ◌∷◌, ◌++◌, none, some, str_eq, str_eq_iff, arith,
  Bool-cases, inl, inr, All, keep, if◌then◌else◌,
}
use soc2_sentinel.Python.{Floats}
use soc2_sentinel.Drift.{Run, last_run, last_run?, baseline_run}

module _ (F : Floats) where
  abbrev pub IsOtherThan : Run F → List (Run F) → Type 0
  IsOtherThan r runs = All (λ d. str_eq d.name r.name ≡ false) runs

  abbrev others : Run F → List (Run F) → List (Run F)
  others r runs = keep (λ d. not (str_eq d.name r.name)) runs

  others_all : (r : Run F) (runs : List (Run F)) → IsOtherThan r runs → others r runs ≡ runs
  others_all r [] h = refl
  others_all r (d ∷ runs) (h, hs) = ground (arith, h, others_all r runs hs)

  others-append_same :
      (r s : Run F) (runs : List (Run F))
      → str_eq s.name r.name ≡ true
      → others r (runs ++ (s ∷ [])) ≡ others r runs
  others-append_same r s [] h = ground (arith, h)
  others-append_same r s (d ∷ runs) h = ground (arith, others-append_same r s runs h)

  others-append_other :
      (r s : Run F) (runs : List (Run F))
      → str_eq s.name r.name ≡ false
      → others r (runs ++ (s ∷ [])) ≡ others r runs ++ (s ∷ [])
  others-append_other r s [] h = ground (arith, h)
  others-append_other r s (d ∷ runs) h = ground (arith, others-append_other r s runs h)

  others_named :
      (r s : Run F) (runs : List (Run F)) → r.name ≡ s.name → others r runs ≡ others s runs
  others_named r s runs h = ap (λ n. keep (λ d. not (str_eq d.name n)) runs) h

  last_run-append :
      (first s : Run F) (runs : List (Run F)) → last_run F first (runs ++ (s ∷ [])) ≡ s
  unfolding last_run
  last_run-append first s [] = refl
  last_run-append first s (d ∷ runs) = last_run-append d s runs

  last_run?-append : (s : Run F) (runs : List (Run F)) → last_run? F (runs ++ (s ∷ [])) ≡ some s
  unfolding last_run?
  last_run?-append s [] = refl
  last_run?-append s (d ∷ runs) = ground (arith, last_run-append d s runs)

  -- Without a baseline date, the newest run is compared with the one before it, and every other run with
  -- the newest one, which comes after it. The runs are those below the evidence folder, in order, and
  -- no earlier run has the newest one's name.
  pub baseline_run_default :
      (earlier : List (Run F)) (newest cur : Run F)
      → IsOtherThan newest earlier
      → baseline_run F none cur (earlier ++ (newest ∷ []))
        ≡ (if str_eq newest.name cur.name then last_run? F earlier else some newest)
  unfolding baseline_run
  baseline_run_default earlier newest cur h = elim (Bool-cases (str_eq newest.name cur.name)) [
    | inl e ↦ ground (
      arith,
      e,
      others-append_same cur newest earlier e,
      others_named newest cur earlier ((str_eq_iff newest.name cur.name).0 e),
      others_all newest earlier h,
    )
    | inr e ↦ ground (
      arith,
      e,
      others-append_other cur newest earlier e,
      last_run?-append newest (others cur earlier),
    )
  ]
