-- ===== src/Vendor/Assessment.antt =====
-- `Vendor.evaluate_risk` of sentinel/vendor_risk.py. How many days are left until the text of a date
-- is a parameter, which raises where the text is no date.
use text.Mathlib.Text.{starts_with}
use soc2_sentinel.Base.{
  ℕ, ◌+◌, String, ◌<>◌, Bool, true, false, not, ◌&&◌, ◌||◌, List, [], ◌∷◌, ◌++◌, Option, none, some,
  str_eq, show_nat, if◌then◌else◌,
}
use soc2_sentinel.Base.Int.{ℤ, pos, pos_part, neg_part, ltb_ℤ, leb_ℤ, ◌-ℤ◌, show_int}
use soc2_sentinel.Python.{Py, ok, raise}
use soc2_sentinel.Vendor.Questionnaire.{SecurityQuestionnaire, calculate_score}

pub data VendorTier : Type 0 where
  tier_1_critical tier_2_high tier_3_medium tier_4_low : VendorTier

pub data VendorStatus : Type 0 where
  approved under_review conditional rejected offboarded : VendorStatus

pub data DataClassification : Type 0 where
  restricted confidential internal public_data : DataClassification

pub record Vendor : Type 0 where
  pub vendor_id : String
  pub name : String
  pub service_description : String
  pub tier : VendorTier
  pub data_classification : DataClassification
  pub owner_email : String
  pub status : VendorStatus
  pub soc2_valid_until : Option String
  pub questionnaire : SecurityQuestionnaire
  pub risk_score : ℤ
  pub findings : List String
  pub last_assessment_date : String

abbrev pub is_tier_1 : VendorTier → Bool
is_tier_1 tier_1_critical = true
is_tier_1 _ = false

abbrev pub is_high_tier : VendorTier → Bool
is_high_tier tier_1_critical = true
is_high_tier tier_2_high = true
is_high_tier _ = false

abbrev pub is_sensitive : DataClassification → Bool
is_sensitive restricted = true
is_sensitive confidential = true
is_sensitive _ = false

-- The local variables `base_score` and `findings`.
pub record Rating : Type 0 where
  pub base_score : ℤ
  pub found : List String

abbrev pub deduct : String → ℕ → Rating → Rating
deduct finding points r = record {
  base_score = r.base_score -ℤ pos points;
  found = r.found ++ (finding ∷ []);
}

abbrev pub deduct_if : Bool → String → ℕ → Rating → Rating
deduct_if fault finding points r = if fault then deduct finding points r else r

abbrev pub warn : String → Rating → Rating
warn finding r = record r { found = r.found ++ (finding ∷ []) }

-- `f"CRITICAL: Vendor SOC 2 Type II report expired {abs(days_left)} days ago."`
abbrev pub expired_finding : ℤ → String
expired_finding days =
    "CRITICAL:"
    <> (" Vendor SOC 2 Type II report expired "
        <> (show_nat (pos_part days + neg_part days) <> " days ago."))

unfoldable pub rate_days : Py ℤ → Rating → Rating
unfolding show_int show_nat ◌-ℤ◌
rate_days (ok days) r =
    if ltb_ℤ days (pos 0)
    then deduct (expired_finding days) 20 r
    else if leb_ℤ days (pos 60)
    then warn ("WARNING: Vendor SOC 2 Type II report expires in " <> (show_int days <> " days.")) r
    else r
rate_days (raise _) r = warn "WARNING: Invalid soc2_valid_until datetime format." r

abbrev pub no_report : String
no_report = "HIGH: No SOC 2 Type II report on file for high-criticality vendor."

abbrev pub is_filled : Option String → Bool
is_filled none = false
is_filled (some s) = not (str_eq s "")

abbrev pub text_or_empty : Option String → String
text_or_empty none = ""
text_or_empty (some s) = s

-- The three requirements on tier 1.
abbrev pub rate_dpa : Vendor → Rating → Rating
rate_dpa v =
    deduct_if (not v.questionnaire.dpa_executed && is_sensitive v.data_classification)
      "CRITICAL: Data Processing Agreement (DPA) missing for Tier 1 vendor." 15

abbrev pub rate_mfa : Vendor → Rating → Rating
rate_mfa v =
    deduct_if (not v.questionnaire.enforces_mfa)
      "CRITICAL: Vendor does not enforce MFA on staff identities." 15

abbrev pub rate_encryption : Vendor → Rating → Rating
rate_encryption v =
    deduct_if (not v.questionnaire.encrypts_data_at_rest)
      "CRITICAL: Encryption at rest not affirmed by vendor." 10

unfoldable pub rate_tier_1 : Vendor → Rating → Rating
unfolding ◌-ℤ◌
rate_tier_1 v r = rate_encryption v (rate_mfa v (rate_dpa v r))

-- `any(f.startswith("CRITICAL:") for f in findings)`
unfoldable pub any_critical : List String → Bool
any_critical [] = false
any_critical (f ∷ fs) = starts_with f "CRITICAL:" || any_critical fs

-- `max(0.0, min(100.0, base_score))`
unfoldable pub clamp_score : ℤ → ℤ
clamp_score score =
    let capped = if ltb_ℤ score (pos 100) then score else pos 100 in
    if ltb_ℤ (pos 0) capped then capped else pos 0

unfoldable pub status_for : List String → ℤ → VendorStatus
unfolding any_critical
status_for findings score =
    if any_critical findings
    then (if leb_ℤ (pos 50) score then conditional else rejected)
    else if leb_ℤ (pos 80) score
    then approved
    else under_review

module _ (days_left : String → Py ℤ) where
  unfoldable pub rate_report : Vendor → Rating → Rating
  unfolding rate_days ◌-ℤ◌
  rate_report v r =
      if is_filled v.soc2_valid_until
      then rate_days (days_left (text_or_empty v.soc2_valid_until)) r
      else deduct_if (is_high_tier v.tier) no_report 15 r

  unfoldable pub rate : Vendor → Rating
  unfolding rate_report rate_tier_1 calculate_score
  rate v =
      let start : Rating = record {
        base_score = pos (calculate_score v.questionnaire);
        found = [];
      } in
      let reported = rate_report v start in
      if is_tier_1 v.tier then rate_tier_1 v reported else reported

  unfoldable pub evaluate_risk : Vendor → Vendor
  unfolding rate clamp_score status_for
  evaluate_risk v =
      let r = rate v in
      record v {
        risk_score = clamp_score r.base_score;
        findings = r.found;
        status = status_for r.found (clamp_score r.base_score);
      }
