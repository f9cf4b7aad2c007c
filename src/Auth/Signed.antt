-- ===== src/Auth/Signed.antt =====
-- Tokens that are accepted were signed.
use soc2_sentinel.Base.{
  Codes, String, ◌≡◌, sym, ap, ◌∙◌, ◌∷◌, ◌++◌, Option, none, some, arith, Bool-cases, Option-cases,
  inl, inr, if◌then◌else◌,
}
use soc2_sentinel.Python.{Py, ok, raise, >>=-eq-ok, Floats}
use soc2_sentinel.Auth.{
  padded, eq_codes, without_prefix, UserIdentity, get_signing_secret, Codec, token_prefix, dot,
  identity_in, check_parts, or_none, parts_of, verify_token,
}
use soc2_sentinel.Auth.Claims.{IsClaimed, identity_in-IsClaimed}
use soc2_sentinel.Auth.Parts.{eq_codes-eq, without_prefix-eq, split_once-eq}

module _ (F : Floats) (C : Codec F) where
  parts_of-eq :
      (token b64 signature : Codes)
      → parts_of F C token ≡ some (b64, signature)
      → token ≡ token_prefix F C ++ (b64 ++ (dot F C ∷ signature))
  unfolding parts_of
  parts_of-eq token b64 signature h =
      elim (Option-cases (without_prefix (token_prefix F C) token)) [
        | inl n ↦ ground (arith, n, h)
        | inr (body, e) ↦
            without_prefix-eq (token_prefix F C) token body e
            ∙ ap (λ b. token_prefix F C ++ b)
                (split_once-eq (dot F C) body b64 signature (ground (arith, e, h)))
      ]

  check_parts-some :
      (key : String) (now : C.Instant) (b64 signature : Codes) (user : UserIdentity)
      → check_parts F C key now b64 signature ≡ ok (some user)
      → (raw : C.Bytes) × (C.hmac_sha256 key raw ≡ signature)
        × (C.b64decode (padded b64) ≡ ok raw)
        × (identity_in F C now raw ≡ ok (some user))
  unfolding check_parts
  check_parts-some key now b64 signature user h =
      let (raw, e, k) =
        >>=-eq-ok (C.b64decode (padded b64))
          (λ raw.
            if eq_codes (C.hmac_sha256 key raw) signature then identity_in F C now raw else ok none)
          h in
      elim (Bool-cases (eq_codes (C.hmac_sha256 key raw) signature)) [
        | inl s ↦ (raw, eq_codes-eq (C.hmac_sha256 key raw) signature s, e, ground (arith, s, k))
        | inr s ↦ absurd (ground (arith, s, k))
      ]

  or_none-some :
      (m : Py (Option UserIdentity)) (user : UserIdentity)
      → or_none F C m ≡ some user
      → m ≡ ok (some user)
  or_none-some (ok o) user h = ap ok h
  or_none-some (raise x) user h = ground (arith, h)

  -- The token of an accepted identity is a payload, encoded, with the HMAC of that payload under the
  -- signing secret, and the payload is a dictionary whose `exp` is not
  -- before the time of the check and whose claims are the fields of the identity.
  pub verify_token-signed :
      (explicit env : Option String) (fresh : String) (ephemeral : Option String) (now : C.Instant)
      (token : Codes) (user : UserIdentity)
      → (verify_token F C explicit env fresh ephemeral now token).0 ≡ some user
      → (b64 : Codes) × (raw : C.Bytes) × (token
          ≡ token_prefix F C
            ++ (b64
                ++ (dot F C
                    ∷ C.hmac_sha256 (get_signing_secret explicit env fresh ephemeral).0 raw)))
        × (C.b64decode (padded b64) ≡ ok raw)
        × IsClaimed F C now raw user
  unfolding verify_token
  verify_token-signed explicit env fresh ephemeral now token user h =
      elim (Option-cases (parts_of F C token)) [
        | inl n ↦ absurd (ground (arith, n, h))
        | inr (parts, p) ↦
            let key = (get_signing_secret explicit env fresh ephemeral).0 in
            let accepted =
              or_none-some (check_parts F C key now parts.0 parts.1) user (ground (arith, p, h)) in
            let (raw, s, d, i) = check_parts-some key now parts.0 parts.1 user accepted in
            let shape = parts_of-eq token parts.0 parts.1 p in
            (
              parts.0,
              raw,
              shape ∙ ap (λ c. token_prefix F C ++ (parts.0 ++ (dot F C ∷ c))) (sym s),
              d,
              identity_in-IsClaimed F C now raw user i,
            )
      ]
