-- ===== src/Scoring/Bounds.antt =====
-- What holds of every control's score, whatever the evidence says.
use soc2_sentinel.Base.{
  String, ◌≡◌, refl, ◌≢◌, ◌⊎◌, inl, inr, false, Option, none, some, arith, Bool-cases,
}
use soc2_sentinel.Python.{
  Py, Returns, returned, Returns-then, str, dict, Fields, end, get, is_text, is_empty, as_dict,
  Floats, IsOrdered, min,
}
use soc2_sentinel.Python.Laws.{IsWithin, max-IsWithin, capped-not_le}
use soc2_sentinel.Scoring.{
  pass, not_assessed, Control, ControlScore, Assessment, unassessed, first_error, failed_collection,
  band, clamp, finish, evaluate, cap_partial,
}

-- The evidence was collected, and its quality is neither "failed" nor "partial".
abbrev pub IsWhole : (F : Floats) → Option (Fields F.Float) → Type 0
IsWhole F none = ⊥
IsWhole F (some evidence) =
    let quality = get evidence "collection_quality" (str "unknown") in
    (is_empty evidence ≡ false)
    × (is_text quality "failed" ≡ false)
    × (is_text quality "partial" ≡ false)

-- The score lies between 0 and 100, the status is the band of the score unless there was no
-- evidence, and a control passes only on whole evidence.
pub record IsSound (F : Floats) (evidence : Option (Fields F.Float)) (s : ControlScore F)
    : Type 0 where
  pub within : IsWithin F 0 10_000 s.score
  pub banded : (s.status ≡ band F s.score) ⊎ (s.status ≡ not_assessed) × (s.score ≡ F.lit 0)
  pub whole : s.status ≡ pass → IsWhole F evidence

module _ (F : Floats) (L : IsOrdered F) where
  lit-IsWithin : IsWithin F 0 10_000 (F.lit 0)
  lit-IsWithin = record {
    at_least = L.le-lit 0 0 (omega arith) (omega arith);
    at_most = L.le-lit 0 10_000 (omega arith) (omega arith);
  }

  unassessed-IsSound :
      (c : Control) (evidence : Option (Fields F.Float)) → IsSound F evidence (unassessed F c)
  unfolding unassessed
  unassessed-IsSound c evidence = record {
    within = lit-IsWithin;
    banded = inr (refl, refl);
    whole = λ p. cc;
  }

  failed_collection-IsSound :
      (c : Control) (message : String) (evidence : Option (Fields F.Float))
      → IsSound F evidence (failed_collection F c message)
  unfolding failed_collection band
  failed_collection-IsSound c message evidence = record {
    within = lit-IsWithin;
    banded = inl (
        ground (
          arith,
          L.le-lit 8_500 0 (omega arith) (omega arith),
          L.le-lit 5_000 0 (omega arith) (omega arith),
        ));
    whole = λ p. cc;
  }

  -- A capped score is below the band of a pass.
  partial-not_pass : (x : F.Float) → band F (clamp F (min F (F.lit 7_000) x)) ≢ pass
  unfolding band clamp
  partial-not_pass x = ground (arith, capped-not_le F L 7_000 10_000 8_500 x)

  clamp-IsWithin : (x : F.Float) → IsWithin F 0 10_000 (clamp F x)
  unfolding clamp
  clamp-IsWithin x = max-IsWithin F L 0 10_000 x (omega arith) (omega arith)

  finish-IsSound :
      (c : Control) (evidence : Fields F.Float) (a : Assessment F)
      → is_empty evidence ≡ false
      → is_text (get evidence "collection_quality" (str "unknown")) "failed" ≡ false
      → IsSound F (some evidence) (finish F c (get evidence "collection_quality" (str "unknown")) a)
  unfolding finish cap_partial
  finish-IsSound c evidence a filled collected =
      elim (Bool-cases (is_text (get evidence "collection_quality" (str "unknown")) "partial")) [
        | inl cut ↦ rw cut (record {
          within = clamp-IsWithin (min F (F.lit 7_000) a.tally.score);
          banded = inl refl;
          whole = λ p. absurd (partial-not_pass a.tally.score p);
        })
        | inr full ↦ rw full (record {
          within = clamp-IsWithin a.tally.score;
          banded = inl refl;
          whole = λ _. (filled, collected, full);
        })
      ]

  pub evaluate-IsSound :
      (c : Control) (assess : Fields F.Float → Fields F.Float → Py (Assessment F))
      (evidence : Option (Fields F.Float))
      → Returns (IsSound F evidence) (evaluate F c assess evidence)
  unfolding evaluate
  evaluate-IsSound c assess none = returned (unassessed-IsSound c none)
  evaluate-IsSound c assess (some evidence) = elim (Bool-cases (is_empty evidence)) [
    | inl empty ↦ rw empty (returned (unassessed-IsSound c (some evidence)))
    | inr filled ↦
        elim (Bool-cases (is_text (get evidence "collection_quality" (str "unknown")) "failed")) [
          | inl bad ↦
              rw (filled, bad)
                (Returns-then (first_error F c evidence) _
                  λ message. returned (failed_collection-IsSound c message (some evidence)))
          | inr good ↦
              rw (filled, good)
                (Returns-then (as_dict (get evidence "metrics" (dict end))) _ λ metrics.
                  Returns-then (assess evidence metrics) _
                    λ a. returned (finish-IsSound c evidence a filled good))
        ]
  ]
