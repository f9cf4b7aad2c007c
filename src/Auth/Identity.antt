-- ===== src/Auth/Identity.antt =====
-- Roles, permissions and user identities of sentinel/auth.py, and the permission check. The current user
-- of a context is an explicit state.
use soc2_sentinel.Base.{
  String, Bool, false, List, [], ◌∷◌, map, contains, str_eq, if◌then◌else◌, Option, none, some,
  ◌<>◌,
}
use soc2_sentinel.Python.{Py, ok, raise, permission_error}

pub data Role : Type 0 where
  super_admin security_admin compliance_officer auditor system_user viewer unauthenticated : Role

pub data Permission : Type 0 where
  read_evidence read_report read_config read_policy : Permission
  read_audit trigger_collection export_audit_pack manage_credentials : Permission
  manage_tenant manage_user run_policy token_manage : Permission
  verify_integrity : Permission

-- The enumeration is one of texts: members are compared by these values.
abbrev pub value : Permission → String
value read_evidence = "read_evidence"
value read_report = "read_report"
value read_config = "read_config"
value read_policy = "read_policy"
value read_audit = "read_audit"
value trigger_collection = "trigger_collection"
value export_audit_pack = "export_audit_pack"
value manage_credentials = "manage_credentials"
value manage_tenant = "manage_tenant"
value manage_user = "manage_user"
value run_policy = "run_policy"
value token_manage = "token_manage"
value verify_integrity = "verify_integrity"

-- `ROLE_PERMISSIONS`
unfoldable pub role_permissions : Role → List Permission
role_permissions super_admin =
    read_evidence ∷ read_report ∷ read_config ∷ read_policy ∷ read_audit ∷ trigger_collection
    ∷ export_audit_pack ∷ manage_credentials ∷ manage_tenant ∷ manage_user ∷ run_policy
    ∷ token_manage ∷ verify_integrity ∷ []
role_permissions security_admin =
    read_evidence ∷ read_report ∷ read_config ∷ read_policy ∷ read_audit ∷ trigger_collection
    ∷ export_audit_pack ∷ manage_credentials ∷ run_policy ∷ verify_integrity ∷ []
role_permissions compliance_officer =
    read_evidence ∷ read_report ∷ read_config ∷ read_policy ∷ read_audit ∷ trigger_collection
    ∷ export_audit_pack ∷ run_policy ∷ verify_integrity ∷ []
role_permissions auditor =
    read_evidence ∷ read_report ∷ read_policy ∷ read_audit ∷ verify_integrity ∷ []
role_permissions system_user = read_evidence ∷ read_report ∷ []
role_permissions viewer = read_evidence ∷ read_report ∷ []
role_permissions unauthenticated = []

pub record UserIdentity : Type 0 where
  pub user_id : String
  pub role : Role
  pub email : String
  pub tenant_id : String
  pub is_service_account : Bool

-- The constructor, with the e-mail address that `__post_init__` fills in. The session id and the
-- metadata, which no check reads, are left out.
unfoldable pub user_identity : String → Role → String → String → Bool → UserIdentity
user_identity user_id role email tenant_id is_service_account = record {
  user_id = user_id;
  role = role;
  email = if str_eq email "" then user_id <> "@sentinel.local" else email;
  tenant_id = tenant_id;
  is_service_account = is_service_account;
}

unfoldable pub anonymous : String → UserIdentity
unfolding user_identity
anonymous tenant_id =
    user_identity "anonymous" unauthenticated "anonymous@sentinel.local" tenant_id false

unfoldable pub has_permission : UserIdentity → Permission → Bool
unfolding role_permissions contains
has_permission user permission =
    contains (map value (role_permissions user.role)) (value permission)

abbrev pub or_current : Option UserIdentity → UserIdentity → UserIdentity
or_current none current = current
or_current (some user) current = user

-- The user passed in, or else the current one.
unfoldable pub assert_permission : UserIdentity → Permission → Option UserIdentity → Py (Unit {0})
unfolding has_permission
assert_permission current permission user =
    if has_permission (or_current user current) permission then ok tt else raise permission_error

-- The token that resets the user, which is the one before, and the new current user.
abbrev pub set_current_user : UserIdentity → UserIdentity → UserIdentity × UserIdentity
set_current_user user current = (current, user)

abbrev pub reset_current_user : UserIdentity → UserIdentity → UserIdentity
reset_current_user token current = token

-- `with auth_scope(user): body`: the body runs with `user` as the current user, may itself set
-- another one, and returns or raises; the user before is then set again.
abbrev pub auth_scope {ℓ} :
    {A : Type ℓ}
    → UserIdentity
    → (UserIdentity → Py A × UserIdentity)
    → UserIdentity
    → Py A × UserIdentity
auth_scope user body current =
    let set = set_current_user user current in
    let left = body set.1 in (left.0, reset_current_user set.0 left.1)
