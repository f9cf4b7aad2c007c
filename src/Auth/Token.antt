-- ===== src/Auth/Token.antt =====
-- `TokenManager` of sentinel/auth.py. Bytes, HMAC, base64, JSON and the clock are a parameter.
use soc2_sentinel.Base.{
  Codes, codes, ℕ, String, Bool, false, ◌∷◌, ◌++◌, Option, none, some, str_eq, if◌then◌else◌,
}
use soc2_sentinel.Base.Int.{ℤ, pos, ◌+ℤ◌}
use soc2_sentinel.Python.{
  Py, ok, raise, key_error, type_error, attribute_error, ◌>>=◌, Floats, Val, bool, int, str, Fields,
  end, field, get, has, as_dict, truthy,
}
use soc2_sentinel.Auth.Chars.{without_prefix, split_once, rstrip, padded, eq_codes}
use soc2_sentinel.Auth.Identity.{
  Role, super_admin, security_admin, compliance_officer, auditor, system_user, viewer,
  unauthenticated, UserIdentity, user_identity,
}
use soc2_sentinel.Auth.Secret.{get_signing_secret}

pub record Codec (F : Floats) : Type 1 where
  pub Bytes : Type 0
  -- `hmac.new(secret, raw, hashlib.sha256).hexdigest()`
  pub hmac_sha256 : String → Bytes → Codes
  pub b64encode : Bytes → Codes
  -- `base64.urlsafe_b64decode`; binascii.Error.
  pub b64decode : Codes → Py Bytes
  -- `json.dumps(payload, separators=(",", ":"), sort_keys=True).encode("utf-8")`
  pub dumps : Fields F.Float → Bytes
  -- `json.loads(raw_bytes.decode("utf-8"))`
  pub loads : Bytes → Py (Val F.Float)
  pub Instant : Type 0
  -- `int(time.time())`
  pub seconds : Instant → ℤ
  -- `value < time.time()`; TypeError.
  pub is_before : Val F.Float → Instant → Py Bool

-- `role.name`
unfoldable pub role_name : Role → String
role_name super_admin = "SUPER_ADMIN"
role_name security_admin = "SECURITY_ADMIN"
role_name compliance_officer = "COMPLIANCE_OFFICER"
role_name auditor = "AUDITOR"
role_name system_user = "SYSTEM_USER"
role_name viewer = "VIEWER"
role_name unauthenticated = "UNAUTHENTICATED"

-- `getattr(Role, name)` for the names of roles; any other name raises.
unfoldable pub role_named : String → Py Role
role_named name =
    if str_eq name "SUPER_ADMIN"
    then ok super_admin
    else if str_eq name "SECURITY_ADMIN"
    then ok security_admin
    else if str_eq name "COMPLIANCE_OFFICER"
    then ok compliance_officer
    else if str_eq name "AUDITOR"
    then ok auditor
    else if str_eq name "SYSTEM_USER"
    then ok system_user
    else if str_eq name "VIEWER"
    then ok viewer
    else if str_eq name "UNAUTHENTICATED"
    then ok unauthenticated
    else raise attribute_error

module _ (F : Floats) where
  -- A claim that is a text, as `create_token` writes it; other values raise.
  abbrev pub as_text : Val F.Float → Py String
  as_text (str s) = ok s
  as_text _ = raise type_error

  -- `payload[key]`
  unfoldable pub claim : Fields F.Float → String → Py (Val F.Float)
  unfolding has get
  claim payload key = if has payload key then ok (get payload key (str "")) else raise key_error

  -- The identity of a payload's claims: its role, user id, e-mail address, tenant, and whether it is a
  -- service account.
  unfoldable pub identity_of :
      Py (Val F.Float)
      → Py (Val F.Float)
      → Val F.Float
      → Val F.Float
      → Val F.Float
      → Py UserIdentity
  unfolding truthy role_named user_identity
  identity_of role_claim uid_claim email_claim tid_claim sa_claim = do
    role_value ← role_claim
    role_text ← as_text role_value
    role ← role_named role_text
    uid_value ← uid_claim
    user_id ← as_text uid_value
    email ← as_text email_claim
    tenant_id ← as_text tid_claim
    ok (user_identity user_id role email tenant_id (truthy F sa_claim))

  unfoldable pub user_of : Fields F.Float → Py UserIdentity
  unfolding claim get identity_of
  user_of payload =
      identity_of (claim payload "role") (claim payload "uid") (get payload "email" (str ""))
        (get payload "tid" (str "default")) (get payload "sa" (bool false))

  module _ (C : Codec F) where
    unfoldable pub payload_for : UserIdentity → ℤ → String → Fields F.Float
    unfolding role_name
    payload_for user expires_at nonce = field "uid" (str user.user_id) (
        field "email" (str user.email) (
          field "role" (str (role_name user.role)) (
            field "tid" (str user.tenant_id) (
              field "sa" (bool user.is_service_account)
                (field "exp" (int expires_at) (field "nonce" (str nonce) end))))))

    abbrev pub token_prefix : Codes
    token_prefix = codes "sentinel_"

    abbrev pub dot : ℕ
    dot = b'.'

    -- A token from its signed bytes.
    unfoldable pub token_of : String → C.Bytes → Codes
    unfolding rstrip
    token_of signing_key raw =
        token_prefix ++ (rstrip b'=' (C.b64encode raw) ++ (dot ∷ C.hmac_sha256 signing_key raw))

    unfoldable pub sign_token : String → UserIdentity → ℤ → String → Codes
    unfolding token_of payload_for
    sign_token signing_key user expires_at nonce =
        token_of signing_key (C.dumps (payload_for user expires_at nonce))

    -- The identity in bytes whose signature is right, unless it has expired.
    unfoldable pub identity_in : C.Instant → C.Bytes → Py (Option UserIdentity)
    unfolding user_of get
    identity_in now raw_bytes = do
      value ← C.loads raw_bytes
      payload ← as_dict value
      expired ← C.is_before (get payload "exp" (int (pos 0))) now
      if expired then ok none else (user_of payload >>= λ user. ok (some user))

    -- The body of the `try`.
    unfoldable pub check_parts : String → C.Instant → Codes → Codes → Py (Option UserIdentity)
    unfolding padded eq_codes identity_in
    check_parts signing_key now b64_payload signature = do
      raw_bytes ← C.b64decode (padded b64_payload)
      if eq_codes (C.hmac_sha256 signing_key raw_bytes) signature
          then identity_in now raw_bytes
          else ok none

    abbrev pub or_none : Py (Option UserIdentity) → Option UserIdentity
    or_none (ok user) = user
    or_none (raise _) = none

    -- The two parts of a token. The prefix has no dot, so that a token has one exactly where the rest of the
    -- token has one.
    unfoldable pub parts_of : Codes → Option (Codes × Codes)
    unfolding without_prefix split_once
    parts_of token = elim (without_prefix token_prefix token) [
      | none ↦ none
      | some body ↦ split_once dot body
    ]

    -- With the signing secret of the process, its environment and its arguments.
    unfoldable pub create_token :
        Option String
        → Option String
        → String
        → Option String
        → C.Instant
        → UserIdentity
        → ℤ
        → String
        → Codes × Option String
    unfolding get_signing_secret sign_token ◌+ℤ◌
    create_token explicit env fresh ephemeral now user expires_in_seconds nonce =
        let resolved = get_signing_secret explicit env fresh ephemeral in
        (sign_token resolved.0 user (C.seconds now +ℤ expires_in_seconds) nonce, resolved.1)

    unfoldable pub verify_token :
        Option String
        → Option String
        → String
        → Option String
        → C.Instant
        → Codes
        → Option UserIdentity × Option String
    unfolding get_signing_secret check_parts parts_of
    verify_token explicit env fresh ephemeral now token =
        let resolved = get_signing_secret explicit env fresh ephemeral in
        elim (parts_of token) [
          | none ↦ (none, ephemeral)
          | some parts ↦ (or_none (check_parts resolved.0 now parts.0 parts.1), resolved.1)
        ]
