-- ===== src/Vendor/Tests.antt =====
-- The theorems about sentinel/vendor_risk.py for one vendor, and a file that is not read.
use soc2_sentinel.Base.{String, ◌≢◌, true, false, [], none, some}
use soc2_sentinel.Base.Int.{ℤ, pos}
use soc2_sentinel.Python.{Py, ok, raise, value_error}
use soc2_sentinel.Vendor.{
  SecurityQuestionnaire, Vendor, tier_1_critical, restricted, offboarded, evaluate_risk,
  VendorFiles,
}
use soc2_sentinel.Vendor.Risk.{evaluate_risk_offboarded}

abbrev answers : SecurityQuestionnaire
answers = record {
  has_soc2_type2 = true;
  soc2_report_date = none;
  soc2_clean_opinion = true;
  enforces_mfa = true;
  encrypts_data_at_rest = true;
  encrypts_data_in_transit = true;
  has_annual_pentest = true;
  has_incident_response_plan = true;
  has_business_continuity_plan = true;
  has_background_checks = true;
  dpa_executed = true;
  baa_executed = false;
  subprocessors_documented = false;
}

abbrev cloud_host : Vendor
cloud_host = record {
  vendor_id = "v-1";
  name = "Cloud host";
  service_description = "Hosting";
  tier = tier_1_critical;
  data_classification = restricted;
  owner_email = "owner@sentinel.local";
  status = offboarded;
  soc2_valid_until = some "2027-01-01";
  questionnaire = answers;
  risk_score = pos 0;
  findings = [];
  last_assessment_date = "";
}

-- Every date is 200 days away.
abbrev in_200_days : String → Py ℤ
in_200_days _ = ok (pos 200)

abbrev no_files : VendorFiles
no_files _ = none

abbrev broken_files : VendorFiles
broken_files _ = some (raise value_error)

evaluate_risk_offboarded_example : (evaluate_risk in_200_days cloud_host).status ≢ offboarded
evaluate_risk_offboarded_example = evaluate_risk_offboarded in_200_days cloud_host
