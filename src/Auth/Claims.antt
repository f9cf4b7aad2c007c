-- ===== src/Auth/Claims.antt =====
-- The claims of a payload that `verify_token` of sentinel/auth.py accepts.
use soc2_sentinel.Base.{
  ◌<>◌, String, ◌≡◌, refl, sym, ap, ◌∙◌, Bool, true, false, none, some, arith, Bool-cases, inl, inr,
  str_eq, str_eq_iff, if◌then◌else◌,
}
use soc2_sentinel.Base.Int.{pos}
use soc2_sentinel.Python.{
  Py, ok, raise, attribute_error, ◌>>=◌, >>=-eq-ok, ok-injective, Floats, Val, null, bool, int,
  float, str, list, dict, Fields, get, has, as_dict, truthy,
}
use soc2_sentinel.Auth.{
  Role, super_admin, security_admin, compliance_officer, auditor, system_user, viewer,
  unauthenticated, UserIdentity, user_identity, role_name, role_named, as_text, claim, identity_of,
  user_of, Codec, identity_in,
}

module _ (F : Floats) where
  -- The identity that a payload names: its role and user id, which it must have, its e-mail address,
  -- its tenant, and whether it is a service account.
  pub record IsNamed (payload : Fields F.Float) (user : UserIdentity) : Type 0 where
    pub has_role : has payload "role" ≡ true
    pub role : get payload "role" (str "") ≡ str (role_name user.role)
    pub has_uid : has payload "uid" ≡ true
    pub uid : get payload "uid" (str "") ≡ str user.user_id
    pub email :
        (address : String) × (get payload "email" (str "") ≡ str address)
        × (user.email ≡ (if str_eq address "" then user.user_id <> "@sentinel.local" else address))
    pub tid : get payload "tid" (str "default") ≡ str user.tenant_id
    pub sa : user.is_service_account ≡ truthy F (get payload "sa" (bool false))

  as_text-ok : (v : Val F.Float) (s : String) → as_text F v ≡ ok s → v ≡ str s
  as_text-ok (str t) s h = ap str (ok-injective t s h)
  as_text-ok null s h = cc
  as_text-ok (bool b) s h = cc
  as_text-ok (int n) s h = cc
  as_text-ok (float x) s h = cc
  as_text-ok (list xs) s h = cc
  as_text-ok (dict d) s h = cc

  claim-ok :
      (payload : Fields F.Float) (key : String) (v : Val F.Float)
      → claim F payload key ≡ ok v
      → (has payload key ≡ true) × (get payload key (str "") ≡ v)
  unfolding claim
  claim-ok payload key v h = elim (Bool-cases (has payload key)) [
    | inl e ↦ (e, ok-injective _ _ (ground (arith, e, h)))
    | inr e ↦ absurd (ground (arith, e, h))
  ]

-- One test of the chain.
named-if :
    (name text : String) (tested role : Role) (rest : Py Role)
    → text ≡ role_name tested
    → (rest ≡ ok role → name ≡ role_name role)
    → (if str_eq name text then ok tested else rest) ≡ ok role
    → name ≡ role_name role
named-if name text tested role rest spelled later h = elim (Bool-cases (str_eq name text)) [
  | inl e ↦
      (str_eq_iff name text).0 e
      ∙ spelled
      ∙ ap role_name
          (ok-injective tested role (ap (λ b. if b then ok tested else rest) (sym e) ∙ h))
  | inr e ↦ later (ap (λ b. if b then ok tested else rest) (sym e) ∙ h)
]

role_named-ok : (name : String) (role : Role) → role_named name ≡ ok role → name ≡ role_name role
unfolding role_named role_name
role_named-ok name role = named-if name "SUPER_ADMIN" super_admin role _ refl (
    named-if name "SECURITY_ADMIN" security_admin role _ refl (
      named-if name "COMPLIANCE_OFFICER" compliance_officer role _ refl (
        named-if name "AUDITOR" auditor role _ refl (
          named-if name "SYSTEM_USER" system_user role _ refl (
            named-if name "VIEWER" viewer role _ refl (
              named-if name "UNAUTHENTICATED" unauthenticated role _ refl
                (λ h. absurd (never h))))))))
  where
    never : ¬ (raise attribute_error ≡ ok role)
    never h = cc

module _ (F : Floats) where
  user_of-IsNamed :
      (payload : Fields F.Float) (user : UserIdentity)
      → user_of F payload ≡ ok user
      → IsNamed F payload user
  unfolding user_of identity_of user_identity
  user_of-IsNamed payload user h =
      let (role_value, c₁, h₁) = >>=-eq-ok (claim F payload "role") _ h in
      let (role_text, c₂, h₂) = >>=-eq-ok (as_text F role_value) _ h₁ in
      let (role, c₃, h₃) = >>=-eq-ok (role_named role_text) _ h₂ in
      let (uid_value, c₄, h₄) = >>=-eq-ok (claim F payload "uid") _ h₃ in
      let (user_id, c₅, h₅) = >>=-eq-ok (as_text F uid_value) _ h₄ in
      let (email, c₆, h₆) = >>=-eq-ok (as_text F (get payload "email" (str ""))) _ h₅ in
      let (tenant_id, c₇, h₇) = >>=-eq-ok (as_text F (get payload "tid" (str "default"))) _ h₆ in
      let made = ok-injective (user_identity user_id role email tenant_id _) user h₇ in
      let (role_there, role_got) = claim-ok F payload "role" role_value c₁ in
      let (uid_there, uid_got) = claim-ok F payload "uid" uid_value c₄ in
      record {
        has_role = role_there;
        role =
            role_got
            ∙ as_text-ok F role_value role_text c₂
            ∙ ap str (role_named-ok role_text role c₃)
            ∙ ap (λ u. str (role_name u.role)) made;
        has_uid = uid_there;
        uid = uid_got ∙ as_text-ok F uid_value user_id c₅ ∙ ap (λ u. str u.user_id) made;
        email = (
          email,
          as_text-ok F _ email c₆,
          ap (λ u. u.email) (sym made)
              ∙ ap (λ i. if str_eq email "" then i <> "@sentinel.local" else email)
                  (ap (λ u. u.user_id) made),
        );
        tid = as_text-ok F _ tenant_id c₇ ∙ ap (λ u. str u.tenant_id) made;
        sa = ap (λ u. u.is_service_account) (sym made);
      }

  module _ (C : Codec F) where
    -- A payload that is not expired now and names the user.
    pub record IsClaimed (now : C.Instant) (raw : C.Bytes) (user : UserIdentity) : Type 0 where
      pub payload : Fields F.Float
      pub loaded : C.loads raw ≡ ok (dict payload)
      pub unexpired : C.is_before (get payload "exp" (int (pos 0))) now ≡ ok false
      pub named : IsNamed F payload user

    as_dict-ok : (v : Val F.Float) (d : Fields F.Float) → as_dict v ≡ ok d → v ≡ dict d
    as_dict-ok (dict e) d h = ap dict (ok-injective e d h)
    as_dict-ok null d h = cc
    as_dict-ok (bool b) d h = cc
    as_dict-ok (int n) d h = cc
    as_dict-ok (float x) d h = cc
    as_dict-ok (str s) d h = cc
    as_dict-ok (list xs) d h = cc

    unless-expired :
        (expired : Bool) (m : Py UserIdentity) (user : UserIdentity)
        → (if expired then ok none else (m >>= λ u. ok (some u))) ≡ ok (some user)
        → (expired ≡ false) × (m ≡ ok user)
    unless-expired true m user h = cc
    unless-expired false (ok u) user h = (refl, cc)
    unless-expired false (raise x) user h = cc

    pub identity_in-IsClaimed :
        (now : C.Instant) (raw : C.Bytes) (user : UserIdentity)
        → identity_in F C now raw ≡ ok (some user)
        → IsClaimed now raw user
    unfolding identity_in
    identity_in-IsClaimed now raw user h =
        let (value, l, h₁) = >>=-eq-ok (C.loads raw) _ h in
        let (payload, d, h₂) = >>=-eq-ok (as_dict value) _ h₁ in
        let (expired, b, h₃) = >>=-eq-ok (C.is_before (get payload "exp" (int (pos 0))) now) _ h₂ in
        let (fresh, named) = unless-expired expired (user_of F payload) user h₃ in
        record {
          payload = payload;
          loaded = l ∙ ap ok (as_dict-ok value payload d);
          unexpired = b ∙ ap ok fresh;
          named = user_of-IsNamed payload user named;
        }
