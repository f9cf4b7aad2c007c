-- ===== src/Scoring/Sound.antt =====
-- Soundness of the seven controls of a scorecard, and of the frameworks' summaries.
use soc2_sentinel.Base.{String, List, [], ◌∷◌}
use soc2_sentinel.Python.{Returns, returned, Returns-bind, Floats, IsOrdered}
use soc2_sentinel.Scoring.{ControlScore}
use soc2_sentinel.Scoring.Iam.{eval_iam}
use soc2_sentinel.Scoring.Logging.{eval_logging}
use soc2_sentinel.Scoring.Drift.{eval_config_drift}
use soc2_sentinel.Scoring.Encryption.{eval_encryption}
use soc2_sentinel.Scoring.Retention.{eval_retention}
use soc2_sentinel.Scoring.Resilience.{eval_resilience}
use soc2_sentinel.Scoring.ZeroTrust.{eval_zero_trust}
use soc2_sentinel.Scoring.Evidence.{EvidenceMap, evidence_of}
use soc2_sentinel.Scoring.Scorecard.{all_controls}
use soc2_sentinel.Scoring.Bounds.{IsSound, evaluate-IsSound}

-- The collectors, in the order of `all_controls`.
abbrev pub collectors : List String
collectors =
    "iam_access_review" ∷ "log_aggregator" ∷ "config_drift" ∷ "encryption_status"
    ∷ "retention_check" ∷ "resilience_testing" ∷ "zt_continuous_verification" ∷ []

module _ (F : Floats) (evidence : EvidenceMap F) where
  -- One sound control for each collector, judged by that collector's evidence.
  abbrev pub AreSound : List String → List (ControlScore F) → Type 0
  AreSound [] [] = Unit
  AreSound (k ∷ ks) (s ∷ ss) = IsSound F (evidence_of F evidence k) s × AreSound ks ss
  AreSound _ _ = ⊥

  -- If the floats are ordered as `IsOrdered` says, then whatever the evidence is: if `all_controls`
  -- returns, it returns one control for each of the seven collectors. Each has a score from 0 to 100.
  -- Its status is the band of that score, or it is not assessed and scores 0. It passes only if its
  -- collector's evidence is there, is not empty, and is marked neither failed nor partial.
  pub all_controls-AreSound : IsOrdered F → Returns (AreSound collectors) (all_controls F evidence)
  unfolding all_controls eval_iam eval_logging eval_config_drift eval_encryption eval_retention
      eval_resilience eval_zero_trust
  all_controls-AreSound L = Returns-bind _ (evaluate-IsSound F L _ _ _) λ s₁ h₁.
      Returns-bind _ (evaluate-IsSound F L _ _ _) λ s₂ h₂.
        Returns-bind _ (evaluate-IsSound F L _ _ _) λ s₃ h₃.
          Returns-bind _ (evaluate-IsSound F L _ _ _) λ s₄ h₄.
            Returns-bind _ (evaluate-IsSound F L _ _ _) λ s₅ h₅.
              Returns-bind _ (evaluate-IsSound F L _ _ _) λ s₆ h₆.
                Returns-bind _ (evaluate-IsSound F L _ _ _)
                  λ s₇ h₇. returned (h₁, (h₂, (h₃, (h₄, (h₅, (h₆, (h₇, tt)))))))
