-- ===== src/Auth/Issued.antt =====
-- Tokens that are issued are accepted until they expire.
use soc2_sentinel.Base.{
  Codes, ℕ, ◌+◌, ◌<◌, ◌%◌, String, ◌≡◌, refl, sym, ap, ◌∙◌, Bool, false, ◌∷◌, ◌++◌, Option, none,
  some, str_eq, arith, length, if◌then◌else◌,
}
use soc2_sentinel.Base.Int.{ℤ, pos, ◌+ℤ◌}
use soc2_sentinel.Python.{ok, Floats, Val, bool, int, str, dict, Fields, get, has}
use soc2_sentinel.Auth.{
  repeated, rstrip, padded, Role, super_admin, security_admin, compliance_officer, auditor,
  system_user, viewer, unauthenticated, UserIdentity, get_signing_secret, Codec, role_name,
  role_named, claim, identity_of, user_of, payload_for, token_prefix, dot, token_of, sign_token,
  identity_in, check_parts, parts_of, create_token, verify_token,
}
use soc2_sentinel.Auth.Parts.{
  Lacks, without_prefix-append, split_once-append, padded-rstrip, rstrip-append, eq_codes_refl,
}

role_named-name : (r : Role) → role_named (role_name r) ≡ ok r
unfolding role_named role_name
role_named-name super_admin = refl
role_named-name security_admin = refl
role_named-name compliance_officer = refl
role_named-name auditor = refl
role_named-name system_user = refl
role_named-name viewer = refl
role_named-name unauthenticated = refl

-- The secret of a process stays what it is.
get_signing_secret_again :
    (explicit env : Option String) (fresh fresh' : String) (ephemeral : Option String)
    → get_signing_secret explicit env fresh' (get_signing_secret explicit env fresh ephemeral).1
      ≡ get_signing_secret explicit env fresh ephemeral
unfolding get_signing_secret
get_signing_secret_again explicit env fresh fresh' ephemeral = ground arith

module _ (F : Floats) where
  -- Two dictionaries with the same values under the same keys.
  abbrev pub AreSame : Fields F.Float → Fields F.Float → Type 0
  AreSame d e =
      ((k : String) (v : Val F.Float) → get d k v ≡ get e k v) × ((k : String) → has d k ≡ has e k)

  module _ (C : Codec F) where
    -- What base64 and JSON promise of a payload: a multiple of four characters, of which those before the
    -- padding are letters, digits, `-` or `_`, and that decoding gives back what was encoded.
    pub record IsFaithful (payload : Fields F.Float) : Type 0 where
      pub encoded :
          (body : Codes) × (n : ℕ) × (C.b64encode (C.dumps payload) ≡ body ++ repeated n b'=')
          × Lacks b'=' body
          × Lacks (dot F C) body
          × (n < 4)
          × ((length body + n) % 4 ≡ 0)
      pub decoded : C.b64decode (C.b64encode (C.dumps payload)) ≡ ok (C.dumps payload)
      pub loaded :
          (d : Fields F.Float) × (C.loads (C.dumps payload) ≡ ok (dict d)) × AreSame d payload

    claim_same : (d e : Fields F.Float) (k : String) → AreSame d e → claim F d k ≡ claim F e k
    unfolding claim
    claim_same d e k (g, h) = ground (arith, g k (str ""), h k)

    user_of_same : (d e : Fields F.Float) → AreSame d e → user_of F d ≡ user_of F e
    unfolding user_of
    user_of_same d e s =
        ap
          (λ c.
            identity_of F c (claim F d "uid") (get d "email" (str "")) (get d "tid" (str "default"))
              (get d "sa" (bool false)))
          (claim_same d e "role" s)
        ∙ ap
            (λ c.
              identity_of F (claim F e "role") c (get d "email" (str ""))
                (get d "tid" (str "default")) (get d "sa" (bool false)))
            (claim_same d e "uid" s)
        ∙ ap
            (λ c.
              identity_of F (claim F e "role") (claim F e "uid") c (get d "tid" (str "default"))
                (get d "sa" (bool false)))
            (s.0 "email" (str ""))
        ∙ ap
            (λ c.
              identity_of F (claim F e "role") (claim F e "uid") (get e "email" (str "")) c
                (get d "sa" (bool false)))
            (s.0 "tid" (str "default"))
        ∙ ap
            (λ c.
              identity_of F (claim F e "role") (claim F e "uid") (get e "email" (str ""))
                (get e "tid" (str "default")) c)
            (s.0 "sa" (bool false))

    identity_of-claims :
        (user : UserIdentity)
        → str_eq user.email "" ≡ false
        → identity_of F
            (ok (str (role_name user.role)))
            (ok (str user.user_id))
            (str user.email)
            (str user.tenant_id)
            (bool user.is_service_account)
          ≡ ok user
    unfolding identity_of
    identity_of-claims user h = ground (arith, h, role_named-name user.role)

    user_of-payload :
        (user : UserIdentity) (expires_at : ℤ) (nonce : String)
        → str_eq user.email "" ≡ false
        → user_of F (payload_for F C user expires_at nonce) ≡ ok user
    unfolding user_of payload_for identity_of
    user_of-payload user expires_at nonce h = identity_of-claims user h

    module _ (payload : Fields F.Float) (laws : IsFaithful payload) (key : String) where
      abbrev raw : C.Bytes
      raw = C.dumps payload

      parts_of-token :
          parts_of F C (token_of F C key raw)
          ≡ some (rstrip b'=' (C.b64encode raw), C.hmac_sha256 key raw)
      unfolding parts_of token_of
      parts_of-token =
          let (body, n, e, h, h', less, m) = laws.encoded in
          let stripped = ap (rstrip b'=') e ∙ rstrip-append b'=' n body h in
          let signed = C.hmac_sha256 key raw in
          let cut = split_once-append (dot F C) body signed h' in
          ground (
            arith,
            without_prefix-append (token_prefix F C)
                (rstrip b'=' (C.b64encode raw) ++ (dot F C ∷ signed)),
            stripped,
            cut,
          )

      check_parts-token :
          (now : C.Instant)
          → check_parts F C key now (rstrip b'=' (C.b64encode raw)) (C.hmac_sha256 key raw)
            ≡ identity_in F C now raw
      unfolding check_parts
      check_parts-token now =
          let (body, n, e, h, _, less, m) = laws.encoded in
          let restored =
            ap (λ t. padded (rstrip b'=' t)) e ∙ padded-rstrip n body h less m ∙ sym e in
          let decoded = ap C.b64decode restored ∙ laws.decoded in
          ground (arith, decoded, eq_codes_refl (C.hmac_sha256 key raw))

    identity_in-payload :
        (now : C.Instant) (user : UserIdentity) (expires_at : ℤ) (nonce : String) (expired : Bool)
        → IsFaithful (payload_for F C user expires_at nonce)
        → str_eq user.email "" ≡ false
        → C.is_before (int expires_at) now ≡ ok expired
        → identity_in F C now (C.dumps (payload_for F C user expires_at nonce))
          ≡ ok (if expired then none else some user)
    unfolding identity_in payload_for
    identity_in-payload now user expires_at nonce expired laws h t =
        let payload = payload_for F C user expires_at nonce in
        let (d, e, s) = laws.loaded in
        let exp = s.0 "exp" (int (pos 0)) in
        let late = ap (λ v. C.is_before v now) exp ∙ t in
        let claims = user_of_same d payload s ∙ user_of-payload user expires_at nonce h in
        ground (arith, e, late, claims)

    -- A token that `create_token` made is answered by `verify_token` with the identity it was made for until
    -- it expires, and with none after that, also where the process made up the secret itself. Base64 and
    -- JSON give back the payload that they encoded, the identity has an e-mail address, and the time of
    -- expiry is comparable with the clock.
    pub verify_token-create :
        (explicit env : Option String) (fresh fresh' : String) (ephemeral : Option String)
        (issued now : C.Instant) (user : UserIdentity) (expires_in_seconds : ℤ) (nonce : String)
        (expired : Bool)
        → IsFaithful (payload_for F C user (C.seconds issued +ℤ expires_in_seconds) nonce)
        → str_eq user.email "" ≡ false
        → C.is_before (int (C.seconds issued +ℤ expires_in_seconds)) now ≡ ok expired
        → (verify_token F C explicit env fresh'
            (create_token F C explicit env fresh ephemeral issued user expires_in_seconds nonce).1
            now
            (create_token F C explicit env fresh ephemeral issued user expires_in_seconds
              nonce).0).0
          ≡ (if expired then none else some user)
    unfolding verify_token create_token sign_token
    verify_token-create explicit env fresh fresh' ephemeral issued now user expires_in_seconds nonce
          expired laws h t =
        let key = (get_signing_secret explicit env fresh ephemeral).0 in
        let expires_at = C.seconds issued +ℤ expires_in_seconds in
        let payload = payload_for F C user expires_at nonce in
        ground (
          arith,
          parts_of-token payload laws key,
          get_signing_secret_again explicit env fresh fresh' ephemeral,
          check_parts-token payload laws key now,
          identity_in-payload now user expires_at nonce expired laws h t,
        )
