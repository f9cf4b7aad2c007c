-- ===== src/Scoring/Coverage.antt =====
-- Every control counts in every framework.
use soc2_sentinel.Base.{
  String, ◌≡◌, refl, Bool, true, false, ◌||◌, Option, none, some, [], ◌∷◌, All, contains,
  Bool-cases, inl, inr,
}
use soc2_sentinel.Python.{
  Py, Returns, returned, Returns-then, Returns-bind, str, dict, Fields, end, get, is_text, is_empty,
  as_dict, Floats,
}
use soc2_sentinel.Scoring.{
  Control, ControlScore, Assessment, unassessed, first_error, failed_collection, finish, evaluate,
}
use soc2_sentinel.Scoring.Iam.{eval_iam}
use soc2_sentinel.Scoring.Logging.{eval_logging}
use soc2_sentinel.Scoring.Drift.{eval_config_drift}
use soc2_sentinel.Scoring.Encryption.{eval_encryption}
use soc2_sentinel.Scoring.Retention.{eval_retention}
use soc2_sentinel.Scoring.Resilience.{eval_resilience}
use soc2_sentinel.Scoring.ZeroTrust.{eval_zero_trust}
use soc2_sentinel.Scoring.Framework.{PillarMapping}
use soc2_sentinel.Scoring.Evidence.{EvidenceMap}
use soc2_sentinel.Scoring.Scorecard.{
  all_controls, soc2_pillars, nist_pillars, cmmc_pillars, zt_pillars,
}

-- Some pillar lists the control.
pub covers : PillarMapping → String → Bool
unfolding contains
covers [] id = false
covers ((_, ids) ∷ mapping) id = contains ids id || covers mapping id

-- Each of the four frameworks has a pillar that lists the control.
abbrev pub IsCovered : String → Type 0
IsCovered id =
    (covers soc2_pillars id ≡ true)
    × (covers nist_pillars id ≡ true)
    × (covers cmmc_pillars id ≡ true)
    × (covers zt_pillars id ≡ true)

module _ (F : Floats) where
  evaluate-control_id :
      (c : Control) (assess : Fields F.Float → Fields F.Float → Py (Assessment F))
      (evidence : Option (Fields F.Float))
      → IsCovered c.control_id
      → Returns (λ (s : ControlScore F). IsCovered s.control_id) (evaluate F c assess evidence)
  unfolding evaluate unassessed failed_collection finish
  evaluate-control_id c assess none h = returned h
  evaluate-control_id c assess (some evidence) h = elim (Bool-cases (is_empty evidence)) [
    | inl empty ↦ rw empty (returned h)
    | inr filled ↦
        elim (Bool-cases (is_text (get evidence "collection_quality" (str "unknown")) "failed")) [
          | inl bad ↦
              rw (filled, bad) (Returns-then (first_error F c evidence) _ λ message. returned h)
          | inr good ↦
              rw (filled, good)
                (Returns-then (as_dict (get evidence "metrics" (dict end))) _
                  λ metrics. Returns-then (assess evidence metrics) _ λ a. returned h)
        ]
  ]

  -- Whatever the evidence is, each control of the scorecard is listed by some pillar of each of the
  -- four frameworks, so that none is left out of a framework's score.
  pub all_controls-IsCovered :
      (evidence : EvidenceMap F)
      → Returns (All (λ (s : ControlScore F). IsCovered s.control_id)) (all_controls F evidence)
  unfolding all_controls eval_iam eval_logging eval_config_drift eval_encryption eval_retention
      eval_resilience eval_zero_trust covers
  all_controls-IsCovered evidence =
      Returns-bind _ (evaluate-control_id _ _ _ (refl, refl, refl, refl)) λ s₁ h₁.
        Returns-bind _ (evaluate-control_id _ _ _ (refl, refl, refl, refl)) λ s₂ h₂.
          Returns-bind _ (evaluate-control_id _ _ _ (refl, refl, refl, refl)) λ s₃ h₃.
            Returns-bind _ (evaluate-control_id _ _ _ (refl, refl, refl, refl)) λ s₄ h₄.
              Returns-bind _ (evaluate-control_id _ _ _ (refl, refl, refl, refl)) λ s₅ h₅.
                Returns-bind _ (evaluate-control_id _ _ _ (refl, refl, refl, refl)) λ s₆ h₆.
                  Returns-bind _ (evaluate-control_id _ _ _ (refl, refl, refl, refl))
                    λ s₇ h₇. returned (h₁, (h₂, (h₃, (h₄, (h₅, (h₆, (h₇, tt)))))))
