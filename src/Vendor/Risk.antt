-- ===== src/Vendor/Risk.antt =====
-- What an assessment guarantees of a vendor.
use soc2_sentinel.Base.{ℕ, ◌≤◌, String, ◌≡◌, ◌≢◌, Bool, true, false, not, ◌&&◌, ◌||◌, List, arith}
use soc2_sentinel.Base.Int.{ℤ, pos, negsuc, ltb_ℤ, leb_ℤ}
use soc2_sentinel.Python.{Py, ok, raise}
use soc2_sentinel.Vendor.{
  calculate_score, Vendor, offboarded, is_tier_1, is_sensitive, Rating, is_filled, text_or_empty,
  clamp_score, status_for, rate, evaluate_risk,
}

-- The score is at most `n`.
abbrev IsBelow : ℕ → Rating → Type 0
IsBelow n r = leb_ℤ r.base_score (pos n) ≡ true

clamp_score-below :
    (n : ℕ) (score : ℤ) → leb_ℤ score (pos n) ≡ true → leb_ℤ (clamp_score score) (pos n) ≡ true
unfolding clamp_score
clamp_score-below n (pos m) h = ground arith
clamp_score-below n (negsuc m) h = ground arith

clamp_score-bounds :
    (score : ℤ)
    → (leb_ℤ (pos 0) (clamp_score score) ≡ true) × (leb_ℤ (clamp_score score) (pos 100) ≡ true)
unfolding clamp_score
clamp_score-bounds (pos n) = (ground arith, ground arith)
clamp_score-bounds (negsuc n) = (ground arith, ground arith)

status_for_offboarded :
    (findings : List String) (score : ℤ) → status_for findings score ≢ offboarded
unfolding status_for
status_for_offboarded findings score h = ground (arith, h)

-- The faults of a vendor of tier 1 that are critical.
abbrev pub has_faults : Vendor → Bool
has_faults v =
    (not v.questionnaire.dpa_executed && is_sensitive v.data_classification)
    || (not v.questionnaire.enforces_mfa || not v.questionnaire.encrypts_data_at_rest)

module _ (days_left : String → Py ℤ) where
  -- An expired report is a critical finding.
  abbrev pub is_expired : Py ℤ → Bool
  is_expired (ok days) = ltb_ℤ days (pos 0)
  is_expired (raise _) = false

  -- The questionnaire reaches 80, no report on file has expired, and a vendor of tier 1 enforces MFA,
  -- encrypts at rest, and has a data processing agreement where its data is sensitive.
  pub record IsApprovable (v : Vendor) : Type 0 where
    pub answered : 80 ≤ calculate_score v.questionnaire
    pub current :
        (is_filled v.soc2_valid_until && is_expired (days_left (text_or_empty v.soc2_valid_until)))
        ≡ false
    pub faultless : is_tier_1 v.tier ≡ true → has_faults v ≡ false

  -- The score of an assessment lies between 0 and 100, whatever the deductions.
  pub evaluate_risk-bounds :
      (v : Vendor)
      → (leb_ℤ (pos 0) (evaluate_risk days_left v).risk_score ≡ true)
        × (leb_ℤ (evaluate_risk days_left v).risk_score (pos 100) ≡ true)
  unfolding evaluate_risk
  evaluate_risk-bounds v = clamp_score-bounds (rate days_left v).base_score

  -- No assessment leaves a vendor offboarded, so that saving an offboarded vendor takes it back into the
  -- register as one to be approved, reviewed or rejected.
  pub evaluate_risk_offboarded : (v : Vendor) → (evaluate_risk days_left v).status ≢ offboarded
  unfolding evaluate_risk
  evaluate_risk_offboarded v =
      let r = rate days_left v in status_for_offboarded r.found (clamp_score r.base_score)
