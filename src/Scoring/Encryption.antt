-- ===== src/Scoring/Encryption.antt =====
-- sentinel/scoring.py: `_eval_encryption`.
use soc2_sentinel.Base.{◌<>◌, Bool, not, ◌&&◌, Option, [], ◌∷◌, if◌then◌else◌}
use soc2_sentinel.Base.Int.{ℤ, pos, ltb_ℤ, eqb_ℤ, show_int}
use soc2_sentinel.Python.{
  Py, ok, ◌>>=◌, null, int, float, Fields, end, field, get, has, is_null, Floats, truthy, min,
  mul_int,
}
use soc2_sentinel.Scoring.{
  Control, ControlScore, Tally, Assessment, safe_int, safe_float, full_marks, charge_if, evaluate,
}

abbrev pub encryption_control : Control
encryption_control = record {
  control_id = "C1.2";
  name = "Cryptographic Protection & Key Management";
  category = "Confidentiality";
  frameworks =
      ("soc2", "C1.2")
      ∷ ("nist", "SC-8, SC-13, SC-28")
      ∷ ("cmmc", "SC.L2-3.13.8")
      ∷ ("zt", "ZT-05")
      ∷ [];
  no_evidence = "No encryption status evidence collected";
  failed_default = "Encryption status collection failed";
  partial_evidence = "Partial evidence collection: cryptographic key status incomplete";
}

module _ (F : Floats) where
  open F use {lit, lt, sub, mul, div_int, show_1}

  -- The deductions, from `score = 100.0` on. The first flag is
  -- `total == 0 and "encrypted_at_rest_percentage" not in metrics`.
  unfoldable pub tally_encryption : Bool → ℤ → F.Float → F.Float → Bool → Py (Tally F)
  tally_encryption undiscovered unencrypted_stores at_rest in_transit fips = do
    t₁ ←
        charge_if F undiscovered
          (ok (
            lit 4_000,
            "No confidential storage volumes or databases discovered for encryption validation",
          ))
          (full_marks F)
    t₂ ←
        charge_if F (ltb_ℤ (pos 0) unencrypted_stores)
          (do
            product ← mul_int F unencrypted_stores (lit 2_500)
            ok (
              min F (lit 5_000) product,
              show_int unencrypted_stores <> " unencrypted storage volumes or databases detected",
            ))
          t₁
    t₃ ←
        charge_if F (lt at_rest (lit 10_000))
          (ok (
            mul (sub (lit 10_000) at_rest) (lit 40),
            "Encryption at rest is " <> (show_1 at_rest <> "% (target: 100%)"),
          ))
          t₂
    t₄ ←
        charge_if F (lt in_transit (lit 10_000))
          (ok (
            mul (sub (lit 10_000) in_transit) (lit 40),
            "TLS 1.2+ transit enforcement is " <> (show_1 in_transit <> "% (target: 100%)"),
          ))
          t₃
    charge_if F (not fips)
        (ok (lit 1_000, "Cryptographic suites are not verified FIPS 140-2/3 compliant")) t₄

  -- `if "encrypted_at_rest_percentage" in metrics: … elif total > 0: … else: …`
  unfoldable pub at_rest_of : Fields F.Float → ℤ → ℤ → Py F.Float
  at_rest_of metrics total enc =
      if has metrics "encrypted_at_rest_percentage"
      then safe_float F (get metrics "encrypted_at_rest_percentage" null) (lit 0)
      else if ltb_ℤ (pos 0) total
      then div_int enc total >>= (λ quotient. ok (mul quotient (lit 10_000)))
      else ok (lit 0)

  unfoldable pub in_transit_of : Fields F.Float → ℤ → Py F.Float
  in_transit_of metrics total =
      let in_transit_val = get metrics "tls_enforced_percentage" null in
      if is_null in_transit_val
      then (do
        weak_ciphers ← safe_int F (get metrics "weak_cipher_endpoints" (int (pos 0))) (pos 0)
        ok (if eqb_ℤ weak_ciphers (pos 0) && ltb_ℤ (pos 0) total then lit 10_000 else lit 0))
      else safe_float F in_transit_val (lit 0)

  unfoldable pub fips_of : Fields F.Float → Py Bool
  fips_of metrics =
      let fips_val = get metrics "fips_compliant_algorithms" null in
      if is_null fips_val
      then (do
        keys ← safe_int F (get metrics "fips_compliant_keys" (int (pos 0))) (pos 0)
        ok (ltb_ℤ (pos 0) keys))
      else ok (truthy F fips_val)

  -- What the metrics say, before any deduction.
  unfoldable pub read_encryption : Fields F.Float → Py (ℤ × F.Float × F.Float × ℤ × Bool)
  read_encryption metrics = do
    total ← safe_int F (get metrics "total_confidential_resources" (int (pos 0))) (pos 0)
    enc ← safe_int F (get metrics "encrypted_at_rest" (int (pos 0))) (pos 0)
    at_rest ← at_rest_of metrics total enc
    in_transit ← in_transit_of metrics total
    unencrypted_stores ←
        safe_int F
          (get metrics "unencrypted_data_stores"
            (get metrics "unencrypted_cui_count" (int (pos 0))))
          (pos 0)
    fips ← fips_of metrics
    ok (total, at_rest, in_transit, unencrypted_stores, fips)

  unfoldable pub assess_encryption : Fields F.Float → Fields F.Float → Py (Assessment F)
  assess_encryption evidence metrics = do
    (total, at_rest, in_transit, unencrypted_stores, fips) ← read_encryption metrics
    tally ←
        tally_encryption (eqb_ℤ total (pos 0) && not (has metrics "encrypted_at_rest_percentage"))
          unencrypted_stores at_rest in_transit fips
    ok (record {
      tally = tally;
      summary = field "at_rest_pct" (float at_rest) (
          field "transit_pct" (float in_transit)
            (field "unencrypted_stores" (int unencrypted_stores) end));
    })

  unfoldable pub eval_encryption : Option (Fields F.Float) → Py (ControlScore F)
  eval_encryption = evaluate F encryption_control assess_encryption
