-- ===== src/Scoring/Findings.antt =====
-- Every deduction is reported: a control without findings has full marks.
use soc2_sentinel.Base.{
  String, ◌≡◌, refl, ◌≢◌, Bool, true, false, Option, none, some, List, [], ◌∷◌, ◌++◌, arith,
  Bool-cases, inl, inr,
}
use soc2_sentinel.Base.Int.{ℤ}
use soc2_sentinel.Python.{
  Py, ok, raise, Val, ◌>>=◌, Returns, returned, raised, Returns-bind, Returns-then, str, dict,
  Fields, end, get, is_text, is_empty, as_dict, Floats, IsOrdered,
}
use soc2_sentinel.Scoring.{
  Control, ControlScore, Tally, Assessment, full_marks, charge, charge_if, note_if, unassessed,
  first_error, failed_collection, clamp, cap_partial, finish, evaluate,
}
use soc2_sentinel.Scoring.Iam.{tally_iam}
use soc2_sentinel.Scoring.Logging.{tally_logging}
use soc2_sentinel.Scoring.Drift.{tally_config_drift}
use soc2_sentinel.Scoring.Encryption.{tally_encryption}
use soc2_sentinel.Scoring.Retention.{tally_retention}
use soc2_sentinel.Scoring.Resilience.{tally_resilience}

snoc-ne-nil {ℓ} : {A : Type ℓ} (xs : List A) (x : A) → xs ++ (x ∷ []) ≢ []
snoc-ne-nil [] x e = cc
snoc-ne-nil (y ∷ ys) x e = cc

module _ (F : Floats) where
  abbrev pub IsAccounted : Tally F → Type 0
  IsAccounted t = t.findings ≡ [] → t.score ≡ F.lit 10_000

  -- No findings, no deduction.
  abbrev pub IsSilent : ControlScore F → Type 0
  IsSilent s = s.findings ≡ [] → s.score ≡ F.lit 10_000

  full_marks-IsAccounted : IsAccounted (full_marks F)
  unfolding full_marks
  full_marks-IsAccounted e = refl

  charge_if-IsAccounted :
      (b : Bool) (cost : Py (F.Float × String)) {t : Tally F}
      → IsAccounted t
      → Returns IsAccounted (charge_if F b cost t)
  unfolding charge_if charge
  charge_if-IsAccounted true (ok (amount, message)) h =
      returned (λ e. absurd (snoc-ne-nil _ message e))
  charge_if-IsAccounted true (raise e) h = raised
  charge_if-IsAccounted false cost h = returned h

  note_if-IsAccounted :
      (b : Bool) (message : String) {t : Tally F}
      → IsAccounted t
      → IsAccounted (note_if F b message t)
  unfolding note_if
  note_if-IsAccounted true message h = λ e. absurd (snoc-ne-nil _ message e)
  note_if-IsAccounted false message h = h

  module _ {t : Tally F} (h : IsAccounted t) where
    -- The next charge, and what follows it.
    then_charge :
        (b : Bool) (cost : Py (F.Float × String)) {f : Tally F → Py (Tally F)}
        → ((u : Tally F) → IsAccounted u → Returns IsAccounted (f u))
        → Returns IsAccounted (charge_if F b cost t >>= f)
    then_charge b cost k = Returns-bind _ (charge_if-IsAccounted b cost h) k

  first_charge :
      (b : Bool) (cost : Py (F.Float × String)) {f : Tally F → Py (Tally F)}
      → ((u : Tally F) → IsAccounted u → Returns IsAccounted (f u))
      → Returns IsAccounted (charge_if F b cost (full_marks F) >>= f)
  first_charge b cost k = then_charge full_marks-IsAccounted b cost k

  pub tally_iam-IsAccounted :
      (orphaned : ℤ) (mfa : F.Float) (days : ℤ)
      → Returns IsAccounted (tally_iam F orphaned mfa days)
  unfolding tally_iam
  tally_iam-IsAccounted orphaned mfa days =
      first_charge _ _ λ t₁ h₁. then_charge h₁ _ _ λ t₂ h₂. charge_if-IsAccounted _ _ h₂

  pub tally_logging-IsAccounted :
      (streams : ℤ) (completeness : F.Float) (retention : ℤ) (gap : F.Float)
      → Returns IsAccounted (tally_logging F streams completeness retention gap)
  unfolding tally_logging
  tally_logging-IsAccounted streams completeness retention gap =
      first_charge _ _ λ t₁ h₁.
        then_charge h₁ _ _ λ t₂ h₂. then_charge h₂ _ _ λ t₃ h₃. charge_if-IsAccounted _ _ h₃

  pub tally_config_drift-IsAccounted :
      (evaluated drifted open_sgs unapproved : ℤ)
      → Returns IsAccounted (tally_config_drift F evaluated drifted open_sgs unapproved)
  unfolding tally_config_drift
  tally_config_drift-IsAccounted evaluated drifted open_sgs unapproved =
      first_charge _ _ λ t₁ h₁.
        then_charge h₁ _ _ λ t₂ h₂. then_charge h₂ _ _ λ t₃ h₃. charge_if-IsAccounted _ _ h₃

  pub tally_encryption-IsAccounted :
      (undiscovered : Bool) (stores : ℤ) (at_rest in_transit : F.Float) (fips : Bool)
      → Returns IsAccounted (tally_encryption F undiscovered stores at_rest in_transit fips)
  unfolding tally_encryption
  tally_encryption-IsAccounted undiscovered stores at_rest in_transit fips =
      first_charge _ _ λ t₁ h₁. then_charge h₁ _ _ λ t₂ h₂.
        then_charge h₂ _ _ λ t₃ h₃. then_charge h₃ _ _ λ t₄ h₄. charge_if-IsAccounted _ _ h₄

  pub tally_retention-IsAccounted :
      (repos past_retention compliant : ℤ) (deletion_valid : Bool)
      → Returns IsAccounted (tally_retention F repos past_retention compliant deletion_valid)
  unfolding tally_retention
  tally_retention-IsAccounted repos past_retention compliant deletion_valid =
      first_charge _ _ λ t₁ h₁.
        then_charge h₁ _ _ λ t₂ h₂. then_charge h₂ _ _ λ t₃ h₃. charge_if-IsAccounted _ _ h₃

  pub tally_resilience-IsAccounted :
      (success_24h jobs failed_30d : ℤ) (restore_tested : Bool) (rto_met rpo_met : Option Bool)
      → Returns IsAccounted
          (tally_resilience F success_24h jobs failed_30d restore_tested rto_met rpo_met)
  unfolding tally_resilience
  tally_resilience-IsAccounted success_24h jobs failed_30d restore_tested rto_met rpo_met =
      first_charge _ _ λ t₁ h₁. then_charge h₁ _ _ λ t₂ h₂. then_charge h₂ _ _ λ t₃ h₃.
        then_charge h₃ _ _ λ t₄ h₄. then_charge h₄ _ _ λ t₅ h₅.
          then_charge (note_if-IsAccounted _ _ h₅) _ _
            λ t₇ h₇. returned (note_if-IsAccounted _ _ h₇)

  abbrev pub AccountedSummary : Assessment F → Type 0
  AccountedSummary a = IsAccounted a.tally

  -- The rest of an `assess_…` function only wraps the tally.
  pub wrap :
      {m : Py (Tally F)} (summary : Fields F.Float)
      → Returns IsAccounted m
      → Returns AccountedSummary (m >>= λ t. ok (record { tally = t; summary = summary }))
  wrap summary h = Returns-bind _ h λ t accounted. returned accounted

  module _ (L : IsOrdered F) where
    finish-IsSilent :
        (c : Control) (quality : Val F.Float) (a : Assessment F)
        → IsAccounted a.tally
        → IsSilent (finish F c quality a)
    unfolding finish cap_partial clamp
    finish-IsSilent c quality a h = elim (Bool-cases (is_text quality "partial")) [
      | inl cut ↦ rw cut (λ e. absurd (snoc-ne-nil _ _ e))
      | inr full ↦ rw full (λ e. rw (h e) (
          ground (
            arith,
            L.lt-lit 10_000 10_000 (omega arith) (omega arith),
            L.lt-lit 0 10_000 (omega arith) (omega arith),
          )))
    ]

    pub evaluate-IsSilent :
        (c : Control) (assess : Fields F.Float → Fields F.Float → Py (Assessment F))
        → ((evidence metrics : Fields F.Float) → Returns AccountedSummary (assess evidence metrics))
        → (evidence : Option (Fields F.Float)) → Returns IsSilent (evaluate F c assess evidence)
    unfolding evaluate unassessed failed_collection
    evaluate-IsSilent c assess h none = returned (λ e. cc)
    evaluate-IsSilent c assess h (some evidence) = elim (Bool-cases (is_empty evidence)) [
      | inl empty ↦ rw empty (returned (λ e. cc))
      | inr filled ↦
          elim (Bool-cases (is_text (get evidence "collection_quality" (str "unknown")) "failed")) [
            | inl bad ↦
                rw (filled, bad)
                  (Returns-then (first_error F c evidence) _ λ message. returned (λ e. cc))
            | inr good ↦
                rw (filled, good)
                  (Returns-then (as_dict (get evidence "metrics" (dict end))) _ λ metrics.
                    Returns-bind _ (h evidence metrics)
                      λ a accounted. returned (finish-IsSilent c _ a accounted))
          ]
    ]
