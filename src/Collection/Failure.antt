-- ===== src/Collection/Failure.antt =====
-- What the scoring makes of the evidence that is written when a collector raised.
use soc2_sentinel.Base.{String, ◌≡◌, refl, Option, some}
use soc2_sentinel.Python.{Py, ok, str, Fields, Floats, get, truthy}
use soc2_sentinel.Collection.{failure_payload}
use soc2_sentinel.Scoring.{
  ControlScore, fail, Control, Assessment, evaluate, first_error, first_of, failed_collection,
}
use soc2_sentinel.Scoring.Iam.{iam_control, assess_iam, eval_iam}
use soc2_sentinel.Scoring.Logging.{logging_control, assess_logging, eval_logging}
use soc2_sentinel.Scoring.Drift.{drift_control, assess_config_drift, eval_config_drift}
use soc2_sentinel.Scoring.Encryption.{encryption_control, assess_encryption, eval_encryption}
use soc2_sentinel.Scoring.Retention.{retention_control, assess_retention, eval_retention}
use soc2_sentinel.Scoring.Resilience.{resilience_control, assess_resilience, eval_resilience}
use soc2_sentinel.Scoring.ZeroTrust.{zero_trust_control, assess_zero_trust, eval_zero_trust}

module _ (F : Floats) where
  -- A control is returned; it fails with the score 0, and its evidence counts as failed.
  abbrev pub IsFailed : Py (ControlScore F) → Type 0
  IsFailed result =
      (s : ControlScore F) × (result ≡ ok s)
      × (s.status ≡ fail)
      × (s.score ≡ F.lit 0)
      × (s.evidence_quality ≡ str "failed")

  -- So it is with each of the seven evaluators.
  abbrev pub AreFailed : Option (Fields F.Float) → Type 0
  AreFailed evidence =
      IsFailed (eval_iam F evidence)
      × IsFailed (eval_logging F evidence)
      × IsFailed (eval_config_drift F evidence)
      × IsFailed (eval_encryption F evidence)
      × IsFailed (eval_retention F evidence)
      × IsFailed (eval_resilience F evidence)
      × IsFailed (eval_zero_trust F evidence)

  evaluate-IsFailed :
      (c : Control) (assess : Fields F.Float → Fields F.Float → Py (Assessment F))
      (now control_id provider_name collector error : String)
      → IsFailed (
          evaluate F c assess (some (failure_payload now control_id provider_name collector error)))
  unfolding evaluate first_error first_of failed_collection failure_payload get truthy
  evaluate-IsFailed c assess now control_id provider_name collector error =
      (_, refl, refl, refl, refl)

  -- Whatever collector raised, with whatever error: each of the seven evaluators returns, for the
  -- evidence of the failure, a control that fails with the score 0 and with failed evidence.
  pub failure_payload-AreFailed :
      (now control_id provider_name collector error : String)
      → AreFailed (some (failure_payload now control_id provider_name collector error))
  unfolding eval_iam eval_logging eval_config_drift eval_encryption eval_retention eval_resilience
      eval_zero_trust
  failure_payload-AreFailed now control_id provider_name collector error =
      let fails = λ (c : Control) (assess : Fields F.Float → Fields F.Float → Py (Assessment F)).
        evaluate-IsFailed c assess now control_id provider_name collector error in
      (
        fails iam_control (assess_iam F),
        fails logging_control (assess_logging F),
        fails drift_control (assess_config_drift F),
        fails encryption_control (assess_encryption F),
        fails retention_control (assess_retention F),
        fails resilience_control (assess_resilience F),
        fails zero_trust_control (assess_zero_trust F),
      )
