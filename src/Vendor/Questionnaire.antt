-- ===== src/Vendor/Questionnaire.antt =====
-- `SecurityQuestionnaire` of sentinel/vendor_risk.py. All weights are whole numbers, so that the
-- float arithmetic is exact and is done on integers here.
use soc2_sentinel.Base.{ℕ, ◌+◌, String, Bool, Option, ltb, if◌then◌else◌}

pub record SecurityQuestionnaire : Type 0 where
  pub has_soc2_type2 : Bool
  pub soc2_report_date : Option String
  pub soc2_clean_opinion : Bool
  pub enforces_mfa : Bool
  pub encrypts_data_at_rest : Bool
  pub encrypts_data_in_transit : Bool
  pub has_annual_pentest : Bool
  pub has_incident_response_plan : Bool
  pub has_business_continuity_plan : Bool
  pub has_background_checks : Bool
  pub dpa_executed : Bool
  pub baa_executed : Bool
  pub subprocessors_documented : Bool

abbrev weight_if : Bool → ℕ → ℕ
weight_if answer weight = if answer then weight else 0

-- `calculate_score`, with the smaller of 100 and the sum.
unfoldable pub calculate_score : SecurityQuestionnaire → ℕ
calculate_score q =
    let score =
      weight_if q.has_soc2_type2 25
      + weight_if q.soc2_clean_opinion 10
      + weight_if q.enforces_mfa 15
      + weight_if q.encrypts_data_at_rest 10
      + weight_if q.encrypts_data_in_transit 10
      + weight_if q.has_annual_pentest 10
      + weight_if q.has_incident_response_plan 5
      + weight_if q.has_business_continuity_plan 5
      + weight_if q.dpa_executed 5
      + weight_if q.has_background_checks 5 in
    if ltb score 100 then score else 100
