-- ===== src/Scoring/Scorecard.antt =====
-- sentinel/scoring.py: `ComplianceScorecard` and `compute_compliance_scorecard`. The time of the run is
-- an argument.
use soc2_sentinel.Base.{String, Bool, Option, none, some, List, [], ◌∷◌, str_eq, if◌then◌else◌}
use soc2_sentinel.Python.{Py, ok, ◌>>=◌, Val, null, str, get, Floats, truthy}
use soc2_sentinel.Scoring.{ControlScore}
use soc2_sentinel.Scoring.Evidence.{EvidenceBase, EvidenceMap, evidence_of, read_evidence_dir}
use soc2_sentinel.Scoring.Iam.{eval_iam}
use soc2_sentinel.Scoring.Logging.{eval_logging}
use soc2_sentinel.Scoring.Drift.{eval_config_drift}
use soc2_sentinel.Scoring.Encryption.{eval_encryption}
use soc2_sentinel.Scoring.Retention.{eval_retention}
use soc2_sentinel.Scoring.Resilience.{eval_resilience}
use soc2_sentinel.Scoring.ZeroTrust.{eval_zero_trust}
use soc2_sentinel.Scoring.Framework.{FrameworkSummary, PillarMapping, compute_framework_summary}

pub record ComplianceScorecard (F : Floats) : Type 0 where
  pub timestamp : String
  pub provider : Val F.Float
  pub overall_posture_score : F.Float
  pub soc2 : FrameworkSummary F
  pub nist : FrameworkSummary F
  pub cmmc : FrameworkSummary F
  pub zero_trust : FrameworkSummary F
  pub controls : List (ControlScore F)

abbrev pub soc2_pillars : PillarMapping
soc2_pillars =
    ("Security", "CC6.1" ∷ "CC6.2" ∷ "CC7.1" ∷ "ZT-1" ∷ [])
    ∷ ("Confidentiality", "C1.2" ∷ "C1.4" ∷ [])
    ∷ ("Availability", "A1.2" ∷ [])
    ∷ []

abbrev pub nist_pillars : PillarMapping
nist_pillars =
    ("Access Control (AC)", "CC6.1" ∷ "ZT-1" ∷ [])
    ∷ ("Audit & Accountability (AU)", "CC7.1" ∷ [])
    ∷ ("Configuration Management (CM)", "CC6.2" ∷ [])
    ∷ ("System & Comm Protection (SC)", "C1.2" ∷ [])
    ∷ ("Media Protection (MP)", "C1.4" ∷ [])
    ∷ ("Contingency Planning (CP)", "A1.2" ∷ [])
    ∷ []

abbrev pub cmmc_pillars : PillarMapping
cmmc_pillars =
    ("Access Control", "CC6.1" ∷ "ZT-1" ∷ [])
    ∷ ("Identification & Auth", "CC6.1" ∷ "CC6.2" ∷ [])
    ∷ ("Audit & Accountability", "CC7.1" ∷ [])
    ∷ ("System Integrity", "CC6.2" ∷ "CC7.1" ∷ [])
    ∷ ("Data Protection", "C1.2" ∷ "C1.4" ∷ [])
    ∷ ("Recovery & Resilience", "A1.2" ∷ [])
    ∷ []

abbrev pub zt_pillars : PillarMapping
zt_pillars =
    ("Identity Pillar", "CC6.1" ∷ "ZT-1" ∷ [])
    ∷ ("Device Pillar", "CC6.2" ∷ "ZT-1" ∷ [])
    ∷ ("Network / Environment", "CC6.2" ∷ "C1.2" ∷ [])
    ∷ ("Application & Workload", "CC6.2" ∷ "CC7.1" ∷ [])
    ∷ ("Data Pillar", "C1.2" ∷ "C1.4" ∷ [])
    ∷ ("Visibility & Analytics", "CC7.1" ∷ [])
    ∷ ("Automation & Orchestration", "A1.2" ∷ "ZT-1" ∷ [])
    ∷ []

module _ (F : Floats) where
  open F use {lit, add, mul, round_1}

  -- `provider or "unknown"`, then the first provider that some evidence names.
  unfoldable pub detect_provider : Val F.Float → EvidenceMap F → Val F.Float
  detect_provider detected [] = detected
  detect_provider detected ((_, ev) ∷ evidence) =
      let named = get ev "provider" null in
      if truthy F named then named else detect_provider detected evidence

  unfoldable pub provider_or_unknown : Option String → Val F.Float
  provider_or_unknown none = str "unknown"
  provider_or_unknown (some p) = if str_eq p "" then str "unknown" else str p

  -- The seven evaluations, in the order of `all_controls`.
  unfoldable pub all_controls : EvidenceMap F → Py (List (ControlScore F))
  unfolding evidence_of
  all_controls evidence = do
    iam ← eval_iam F (evidence_of F evidence "iam_access_review")
    log ← eval_logging F (evidence_of F evidence "log_aggregator")
    drift ← eval_config_drift F (evidence_of F evidence "config_drift")
    enc ← eval_encryption F (evidence_of F evidence "encryption_status")
    ret ← eval_retention F (evidence_of F evidence "retention_check")
    res ← eval_resilience F (evidence_of F evidence "resilience_testing")
    zt ← eval_zero_trust F (evidence_of F evidence "zt_continuous_verification")
    ok (iam ∷ log ∷ drift ∷ enc ∷ ret ∷ res ∷ zt ∷ [])

  -- From where the controls are evaluated.
  unfoldable pub scorecard_of :
      String → Option String → EvidenceMap F → List (ControlScore F) → Py (ComplianceScorecard F)
  unfolding detect_provider provider_or_unknown
  scorecard_of now provider evidence controls = do
    soc2 ←
        compute_framework_summary F "soc2" "SOC 2 Type II (Automated Scope / Posture)" controls
          soc2_pillars
    nist ←
        compute_framework_summary F "nist-800-171"
          "NIST SP 800-171 / 800-172 (Automated Scope / Posture)" controls nist_pillars
    cmmc ←
        compute_framework_summary F "cmmc-l2" "CMMC 2.0 Level 2 (Automated Scope / Posture)"
          controls cmmc_pillars
    zero_trust ←
        compute_framework_summary F "zero-trust"
          "CISA Zero Trust Maturity (Automated Scope / Posture)" controls zt_pillars
    ok (record {
      timestamp = now;
      provider = detect_provider (provider_or_unknown provider) evidence;
      overall_posture_score = round_1 (
          add
            (add (add (mul soc2.overall_score (lit 35)) (mul nist.overall_score (lit 25)))
              (mul cmmc.overall_score (lit 25)))
            (mul zero_trust.overall_score (lit 15)));
      soc2 = soc2;
      nist = nist;
      cmmc = cmmc;
      zero_trust = zero_trust;
      controls = controls;
    })

  unfoldable pub compute_compliance_scorecard :
      (Val F.Float → Val F.Float → Bool)
      → String
      → EvidenceBase F
      → Option String
      → Option String
      → Py (ComplianceScorecard F)
  unfolding all_controls scorecard_of read_evidence_dir
  compute_compliance_scorecard eq_key now base date_str provider =
      let evidence = (read_evidence_dir F eq_key base date_str).1 in
      all_controls evidence >>= scorecard_of now provider evidence
