-- ===== src/Status/Green.antt =====
-- When a control's light is green.
use soc2_sentinel.Base.{String, inl, inr, ◌≡◌, ◌↔◌, true, false, arith}
use soc2_sentinel.Base.Int.{ℤ, pos, ltb_ℤ, leb_ℤ, eqb_ℤ}
use soc2_sentinel.Python.{ok, Py-cases, >>=-eq-ok, Fields, is_null, Floats, IsOrdered}
use soc2_sentinel.Python.Laws.{lt-lit_mono}
use soc2_sentinel.Status.{
  green, metric, int_or_zero, float_or_zero, status_iam_access_review, status_encryption,
  status_logging,
}

module _ (F : Floats) (metrics : Fields F.Float) where
  -- The metric is there, and reads as that integer.
  abbrev pub Counts : String → ℤ → Type 0
  Counts key n =
      (is_null (metric F metrics key) ≡ false) × (int_or_zero F (metric F metrics key) ≡ ok n)

  -- The metric is there, and reads as that float.
  abbrev pub Measures : String → F.Float → Type 0
  Measures key x =
      (is_null (metric F metrics key) ≡ false) × (float_or_zero F (metric F metrics key) ≡ ok x)

  -- The metric reads as that integer, where a missing one reads as zero.
  abbrev pub Reads : String → ℤ → Type 0
  Reads key n = int_or_zero F (metric F metrics key) ≡ ok n

  -- Both metrics are there, at most two accounts are orphaned, and the review is at most 90 days old.
  abbrev pub IamInOrder : Type 0
  IamInOrder =
      (orphaned days : ℤ) × Counts "orphaned_accounts" orphaned
      × Counts "days_since_last_review" days
      × (leb_ℤ orphaned (pos 2) ≡ true)
      × (leb_ℤ days (pos 90) ≡ true)

  iam_in_order : status_iam_access_review F metrics ≡ ok green → IamInOrder
  unfolding status_iam_access_review
  iam_in_order h = elim (Py-cases (int_or_zero F (metric F metrics "orphaned_accounts"))) [
    | inl (o, eo) ↦ elim (Py-cases (int_or_zero F (metric F metrics "days_since_last_review"))) [
      | inl (d, ed) ↦ (o, d, ground arith, ground arith, ground arith, ground arith)
      | inr (e, ed) ↦ absurd (ground arith)
    ]
    | inr (e, eo) ↦ absurd (ground arith)
  ]

  -- The light of the access review is green exactly when the metrics `orphaned_accounts` and
  -- `days_since_last_review` are both there, at most two accounts are orphaned, and the last review
  -- is at most 90 days old.
  pub status_iam-green_iff : (status_iam_access_review F metrics ≡ ok green) ↔ IamInOrder
  unfolding status_iam_access_review
  status_iam-green_iff = (iam_in_order, λ (o, d, co, cd, lo, ld). ground arith)

  -- Something was checked, nothing is unencrypted or weak, and no key waits for its rotation.
  abbrev pub EncryptionInOrder : Type 0
  EncryptionInOrder =
      (total tls unencrypted weak pending : ℤ) × Reads "total_confidential_resources" total
      × Reads "tls_endpoints_checked" tls
      × Reads "unencrypted_cui_count" unencrypted
      × Reads "weak_cipher_endpoints" weak
      × Reads "keys_pending_rotation" pending
      × (eqb_ℤ total (pos 0) ≡ false)
      × (eqb_ℤ tls (pos 0) ≡ false)
      × (ltb_ℤ (pos 0) unencrypted ≡ false)
      × (ltb_ℤ (pos 0) weak ≡ false)
      × (ltb_ℤ (pos 0) pending ≡ false)

  encryption_in_order : status_encryption F metrics ≡ ok green → EncryptionInOrder
  unfolding status_encryption
  encryption_in_order h =
      let (t, et, h₁) = >>=-eq-ok _ _ h in
      let (s, es, h₂) = >>=-eq-ok _ _ h₁ in
      let (u, eu, h₃) = >>=-eq-ok _ _ h₂ in
      let (w, ew, h₄) = >>=-eq-ok _ _ h₃ in
      elim (Py-cases (int_or_zero F (metric F metrics "keys_pending_rotation"))) [
        | inl (p, ep) ↦ (
          t,
          s,
          u,
          w,
          p,
          et,
          es,
          eu,
          ew,
          ep,
          ground arith,
          ground arith,
          ground arith,
          ground arith,
          ground arith,
        )
        | inr (e, ep) ↦ absurd (ground arith)
      ]

  -- The light of encryption is green exactly when resources and TLS endpoints were checked, none of
  -- the former is unencrypted, none of the latter has a weak cipher, and no key waits for rotation,
  -- where a missing metric reads as zero.
  pub status_encryption-green_iff : (status_encryption F metrics ≡ ok green) ↔ EncryptionInOrder
  unfolding status_encryption
  status_encryption-green_iff = (encryption_in_order, λ h. ground arith)

  -- No failures, coverage of 95 % or more, and no gap of more than 24 hours, both measured.
  abbrev pub LoggingInOrder : Type 0
  LoggingInOrder =
      (failures : ℤ) × (coverage gap : F.Float) × Reads "critical_control_failures_30d" failures
      × Measures "log_coverage_percent" coverage
      × Measures "max_gap_hours" gap
      × (ltb_ℤ (pos 0) failures ≡ false)
      × (F.lt coverage (F.lit 9_500) ≡ false)
      × (F.lt (F.lit 2_400) gap ≡ false)

  logging_in_order : status_logging F metrics ≡ ok green → LoggingInOrder
  unfolding status_logging
  logging_in_order h =
      let (f, ef, h₁) = >>=-eq-ok _ _ h in
      elim (Py-cases (float_or_zero F (metric F metrics "log_coverage_percent"))) [
        | inl (c, ec) ↦ elim (Py-cases (float_or_zero F (metric F metrics "max_gap_hours"))) [
          | inl (g, eg) ↦
              (f, c, g, ef, ground arith, ground arith, ground arith, ground arith, ground arith)
          | inr (e, eg) ↦ absurd (ground arith)
        ]
        | inr (e, ec) ↦ absurd (ground arith)
      ]

  -- The light of logging is green exactly when there were no critical failures, the coverage and
  -- the longest gap are both measured, the coverage is not below 95, and the gap is not above 24.
  pub status_logging-green_iff :
      IsOrdered F → (status_logging F metrics ≡ ok green) ↔ LoggingInOrder
  unfolding status_logging
  status_logging-green_iff L = (
    logging_in_order,
    λ (f, c, g, ef, ec, eg, zf, low, long).
        let low' : F.lt c (F.lit 9_000) ≡ false =
          ground (arith, lt-lit_mono F L 9_000 9_500 c (omega arith) (omega arith)) in
        ground arith,
  )
