-- ===== src/Scoring/Reported.antt =====
-- The six evaluators that start from full marks report every deduction.
use soc2_sentinel.Base.{Option}
use soc2_sentinel.Python.{Returns, Returns-then, Fields, Floats, IsOrdered}
use soc2_sentinel.Scoring.Iam.{iam_control, read_iam, assess_iam, eval_iam}
use soc2_sentinel.Scoring.Logging.{logging_control, read_logging, assess_logging, eval_logging}
use soc2_sentinel.Scoring.Drift.{
  drift_control, read_config_drift, assess_config_drift, eval_config_drift,
}
use soc2_sentinel.Scoring.Encryption.{
  encryption_control, read_encryption, assess_encryption, eval_encryption,
}
use soc2_sentinel.Scoring.Retention.{
  retention_control, read_retention, assess_retention, eval_retention,
}
use soc2_sentinel.Scoring.Resilience.{
  resilience_control, read_resilience, assess_resilience, eval_resilience,
}
use soc2_sentinel.Scoring.Findings.{
  IsSilent, AccountedSummary, wrap, evaluate-IsSilent, tally_iam-IsAccounted,
  tally_logging-IsAccounted, tally_config_drift-IsAccounted, tally_encryption-IsAccounted,
  tally_retention-IsAccounted, tally_resilience-IsAccounted,
}

module _ (F : Floats) where
  assess_iam-Accounted :
      (evidence metrics : Fields F.Float)
      → Returns (AccountedSummary F) (assess_iam F evidence metrics)
  unfolding assess_iam
  assess_iam-Accounted evidence metrics =
      Returns-then (read_iam F metrics) _
        λ (orphaned, mfa, days). wrap F _ (tally_iam-IsAccounted F orphaned mfa days)

  assess_logging-Accounted :
      (evidence metrics : Fields F.Float)
      → Returns (AccountedSummary F) (assess_logging F evidence metrics)
  unfolding assess_logging
  assess_logging-Accounted evidence metrics =
      Returns-then (read_logging F metrics) _ λ (streams, completeness, retention, gap).
        wrap F _ (tally_logging-IsAccounted F streams completeness retention gap)

  assess_config_drift-Accounted :
      (evidence metrics : Fields F.Float)
      → Returns (AccountedSummary F) (assess_config_drift F evidence metrics)
  unfolding assess_config_drift
  assess_config_drift-Accounted evidence metrics =
      Returns-then (read_config_drift F metrics) _ λ (evaluated, drifted, open_sgs, unapproved).
        wrap F _ (tally_config_drift-IsAccounted F evaluated drifted open_sgs unapproved)

  assess_encryption-Accounted :
      (evidence metrics : Fields F.Float)
      → Returns (AccountedSummary F) (assess_encryption F evidence metrics)
  unfolding assess_encryption
  assess_encryption-Accounted evidence metrics =
      Returns-then (read_encryption F metrics) _ λ (total, at_rest, in_transit, stores, fips).
        wrap F _ (tally_encryption-IsAccounted F _ stores at_rest in_transit fips)

  assess_retention-Accounted :
      (evidence metrics : Fields F.Float)
      → Returns (AccountedSummary F) (assess_retention F evidence metrics)
  unfolding assess_retention
  assess_retention-Accounted evidence metrics =
      Returns-then (read_retention F metrics) _ λ (past, repos, compliant, valid).
        wrap F _ (tally_retention-IsAccounted F repos past compliant valid)

  assess_resilience-Accounted :
      (evidence metrics : Fields F.Float)
      → Returns (AccountedSummary F) (assess_resilience F evidence metrics)
  unfolding assess_resilience
  assess_resilience-Accounted evidence metrics =
      Returns-then (read_resilience F metrics) _ λ (failed, backups, tested, rto, rpo).
        wrap F _ (tally_resilience-IsAccounted F backups.0 backups.1 failed tested rto rpo)

  -- Whatever the evidence is, a control that one of these six evaluators returns with an empty list
  -- of findings has the score 100: no deduction is made without a finding.
  pub eval-IsSilent :
      IsOrdered F
      → (evidence : Option (Fields F.Float))
      → Returns (IsSilent F) (eval_iam F evidence)
        × Returns (IsSilent F) (eval_logging F evidence)
        × Returns (IsSilent F) (eval_config_drift F evidence)
        × Returns (IsSilent F) (eval_encryption F evidence)
        × Returns (IsSilent F) (eval_retention F evidence)
        × Returns (IsSilent F) (eval_resilience F evidence)
  unfolding eval_iam eval_logging eval_config_drift eval_encryption eval_retention eval_resilience
  eval-IsSilent L evidence = (
    evaluate-IsSilent F L iam_control (assess_iam F) assess_iam-Accounted evidence,
    evaluate-IsSilent F L logging_control (assess_logging F) assess_logging-Accounted evidence,
    evaluate-IsSilent F L drift_control (assess_config_drift F) assess_config_drift-Accounted
        evidence,
    evaluate-IsSilent F L encryption_control (assess_encryption F) assess_encryption-Accounted
        evidence,
    evaluate-IsSilent F L retention_control (assess_retention F) assess_retention-Accounted
        evidence,
    evaluate-IsSilent F L resilience_control (assess_resilience F) assess_resilience-Accounted
        evidence,
  )
