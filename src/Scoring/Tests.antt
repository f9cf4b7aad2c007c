-- ===== src/Scoring/Tests.antt =====
-- Runs of the scoring model on small evidence, and the theorems at concrete data.
use soc2_sentinel.Base.{
  String, ◌≡◌, refl, Bool, true, false, none, some, List, [], ◌∷◌, ◌++◌, map, str_eq, if◌then◌else◌,
}
use soc2_sentinel.Base.Int.{pos, eqb_ℤ}
use soc2_sentinel.Python.{
  Py, ok, raise, Returns, Val, bool, int, float, str, dict, Fields, end, field, has, get, truthy,
  to_int, to_float,
}
use soc2_sentinel.Python.Fixed.{Fixed, fin, fixed, fixed-IsOrdered, program}
use soc2_sentinel.Scoring.{
  Status, pass, partial, fail, not_assessed, ControlScore, safe_int, safe_float, full_marks, charge,
  charge_if, note_if, unassessed, first_error, failed_collection, band, cap_partial, clamp, finish,
  evaluate,
}
use soc2_sentinel.Scoring.Iam.{tally_iam, read_iam, assess_iam, eval_iam}
use soc2_sentinel.Scoring.Logging.{eval_logging}
use soc2_sentinel.Scoring.Drift.{eval_config_drift}
use soc2_sentinel.Scoring.Encryption.{eval_encryption}
use soc2_sentinel.Scoring.Retention.{eval_retention}
use soc2_sentinel.Scoring.Resilience.{eval_resilience}
use soc2_sentinel.Scoring.ZeroTrust.{eval_zero_trust}
use soc2_sentinel.Scoring.Framework.{compute_framework_summary}
use soc2_sentinel.Drift.{Folder, Run}
use soc2_sentinel.Scoring.Evidence.{
  EvidenceBase, EvidenceMap, evidence_of, read_folders, read_evidence_dir,
}
use soc2_sentinel.Scoring.Scorecard.{
  ComplianceScorecard, all_controls, compute_compliance_scorecard, nist_pillars,
}
use soc2_sentinel.Scoring.Sound.{AreSound, collectors, all_controls-AreSound}
use soc2_sentinel.Scoring.Backed.{AreBacked, compute_compliance_scorecard-AreBacked}
use soc2_sentinel.Scoring.Overwritten.{read_folders-last}
use soc2_sentinel.Scoring.Summary.{IsCounted, compute_framework_summary-IsCounted}

-- All that a run unfolds.
run : Unit {0}
unfolding program has get truthy to_int to_float safe_int safe_float full_marks charge charge_if
    note_if unassessed first_error failed_collection band cap_partial clamp finish evaluate
    tally_iam read_iam assess_iam eval_iam
run = tt

abbrev iam_evidence : Fields Fixed
iam_evidence = field "control_id" (str "CC6.1") (
    field "metrics"
      (dict (
        field "orphaned_accounts" (int (pos 2)) (
          field "mfa_enforced_percentage" (float (fin (pos 9_750)))
            (field "days_since_last_review" (str "soon") end))))
      end)

abbrev partial_evidence : Fields Fixed
partial_evidence = field "collection_quality" (str "partial") (
    field "metrics"
      (dict (
        field "log_streams_active" (bool true) (
          field "retention_days" (int (pos 400))
            (field "critical_events_logged_percentage" (int (pos 99)) end))))
      end)

abbrev failed_evidence : Fields Fixed
failed_evidence = field "collection_quality" (str "failed") (field "errors" (str "no access") end)

abbrev sample : EvidenceMap fixed
sample =
    (str "iam_access_review", iam_evidence)
    ∷ (str "log_aggregator", partial_evidence)
    ∷ (str "config_drift", failed_evidence)
    ∷ []

-- The review date is no number, so it counts as 999 days: 100 - 10 - 2 - 20.
iam_score :
    eval_iam fixed (some iam_evidence)
    ≡ ok (record {
      control_id = "CC6.1";
      name = "IAM & Access Provisioning";
      category = "Security";
      status = partial;
      score = fin (pos 6_800);
      evidence_quality = str "unknown";
      findings =
          "2 orphaned accounts detected requiring deprovisioning"
          ∷ "MFA enforcement is only 9750e-2% (target: 100%)"
          ∷ "IAM review overdue (999 days since last review, max SLA: 90 days)" ∷ [];
      metrics_summary = field "orphaned_accounts" (int (pos 2)) (
          field "mfa_enforced_percentage"
            (float (fin (pos 9_750)))
            (field "review_days" (int (pos 999)) end));
      frameworks =
          ("soc2", "CC6.1")
          ∷ ("nist", "AC-2, AC-3")
          ∷ ("cmmc", "AC.L2-3.1.1")
          ∷ ("zt", "ZT-01")
          ∷ [];
    })
unfolding run
iam_score = refl

all_controls-AreSound_example :
    Returns (AreSound fixed sample collectors) (all_controls fixed sample)
all_controls-AreSound_example = all_controls-AreSound fixed sample fixed-IsOrdered

abbrev scored : String → Status → ControlScore fixed
scored id status = record {
  control_id = id;
  name = "";
  category = "";
  status = status;
  score = fin (pos 9_000);
  evidence_quality = str "complete";
  findings = "finding" ∷ [];
  metrics_summary = end;
  frameworks = [];
}

compute_framework_summary-IsCounted_example :
    Returns (IsCounted fixed (scored "CC6.1" pass ∷ scored "C1.4" fail ∷ [])) (
      compute_framework_summary fixed "nist" "NIST"
        (scored "CC6.1" pass ∷ scored "C1.4" fail ∷ [])
        nist_pillars)
compute_framework_summary-IsCounted_example =
    compute_framework_summary-IsCounted fixed "nist" "NIST"
      (scored "CC6.1" pass ∷ scored "C1.4" fail ∷ []) nist_pillars

abbrev same_int : Val Fixed → Val Fixed → Bool
same_int (int m) (int n) = eqb_ℤ m n
same_int _ _ = false

abbrev report_folder : String → Fields Fixed → Folder fixed
report_folder name payload = record {
  name = name;
  is_dir = true;
  report_json = some (ok (dict payload));
  evidence_json = none;
}

-- The second folder has no report, and the evidence is no dictionary.
abbrev february : Run fixed
february = record {
  name = "2026-02-01";
  is_dir = true;
  folders =
      report_folder "iam" iam_evidence
      ∷ record {
        name = "log_aggregator";
        is_dir = true;
        report_json = none;
        evidence_json = some (ok (str "text"));
      }
      ∷ report_folder "config_drift" failed_evidence
      ∷ [];
}

abbrev evidence_base : EvidenceBase fixed
evidence_base = record {
  entries = some (
      record { name = "2026-01-01"; is_dir = true; folders = [] }
      ∷ record { name = "manifests"; is_dir = true; folders = [] }
      ∷ february
      ∷ record { name = "notes.txt"; is_dir = false; folders = [] }
      ∷ []);
  at = λ name. if str_eq name "2026-02-01" then some february else none;
}

-- Under the control and the folder's name first, then under the collector of the control.
read_newest : read_evidence_dir fixed same_int evidence_base none ≡ (
  "2026-02-01",
  (str "CC6.1", iam_evidence)
      ∷ (str "iam", iam_evidence)
      ∷ (str "iam_access_review", iam_evidence)
      ∷ (str "config_drift", failed_evidence)
      ∷ [],
)
unfolding run read_evidence_dir
read_newest = refl

read_missing :
    read_evidence_dir fixed same_int evidence_base (some "2025-01-01") ≡ ("2025-01-01", [])
unfolding run read_evidence_dir
read_missing = refl

compute_compliance_scorecard-AreBacked_example :
    Returns
      (λ card. AreBacked fixed evidence_base none collectors card.controls)
      (compute_compliance_scorecard fixed same_int "now" evidence_base none none)
compute_compliance_scorecard-AreBacked_example =
    compute_compliance_scorecard-AreBacked fixed same_int evidence_base none "now" none
      fixed-IsOrdered

last_report :
    evidence_of fixed
      (read_folders fixed same_int
        ((report_folder "first" iam_evidence ∷ []) ++ (report_folder "iam" failed_evidence ∷ []))
        [])
      "iam"
    ≡ some failed_evidence
unfolding run
last_report =
    read_folders-last fixed same_int (report_folder "first" iam_evidence ∷ [])
      (report_folder "iam" failed_evidence) failed_evidence "iam" [] refl refl refl refl

abbrev statuses_of : Py (ComplianceScorecard fixed) → List Status
statuses_of (raise _) = []
statuses_of (ok card) = map (λ (c : ControlScore fixed). c.status) card.controls

-- The scorecard of that directory is returned, with the control of access assessed as partial and that
-- of the configuration as failed.
scored_newest :
    statuses_of (compute_compliance_scorecard fixed same_int "now" evidence_base none none)
    ≡ partial ∷ not_assessed ∷ fail ∷ not_assessed ∷ not_assessed ∷ not_assessed ∷ not_assessed ∷ []
unfolding run compute_compliance_scorecard compute_framework_summary eval_logging eval_config_drift
    eval_encryption eval_retention eval_resilience eval_zero_trust
scored_newest = refl
