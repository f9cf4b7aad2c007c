-- ===== src/Auth/Clearance.antt =====
-- The permissions that each role has, by clearance.
use soc2_sentinel.Base.{ℕ, ◌≡◌, refl, ◌↔◌, ◌≤◌, leb, arith, contains, Option, map}
use soc2_sentinel.Python.{ok}
use soc2_sentinel.Auth.{
  Role, super_admin, security_admin, compliance_officer, auditor, system_user, viewer,
  unauthenticated, Permission, read_evidence, read_report, read_config, read_policy, read_audit,
  trigger_collection, export_audit_pack, manage_credentials, manage_tenant, manage_user, run_policy,
  token_manage, verify_integrity, UserIdentity, has_permission, or_current, assert_permission,
  role_permissions, value,
}

-- How far up a role stands: viewers and system users share a level.
abbrev pub rank : Role → ℕ
rank super_admin = 5
rank security_admin = 4
rank compliance_officer = 3
rank auditor = 2
rank system_user = 1
rank viewer = 1
rank unauthenticated = 0

-- The lowest level that a permission is granted to.
abbrev pub clearance : Permission → ℕ
clearance read_evidence = 1
clearance read_report = 1
clearance read_config = 3
clearance read_policy = 2
clearance read_audit = 2
clearance trigger_collection = 3
clearance export_audit_pack = 3
clearance manage_credentials = 4
clearance manage_tenant = 5
clearance manage_user = 5
clearance run_policy = 3
clearance token_manage = 5
clearance verify_integrity = 2

-- What `contains` finds for one role.
IsClear : Role → Permission → Type 0
IsClear role permission =
    contains (map value (role_permissions role)) (value permission)
    ≡ leb (clearance permission) (rank role)

-- One role against the permissions in turn.
module _ (role : Role) (on_read_evidence : IsClear role read_evidence)
    (on_read_report : IsClear role read_report) (on_read_config : IsClear role read_config)
    (on_read_policy : IsClear role read_policy) (on_read_audit : IsClear role read_audit)
    (on_trigger_collection : IsClear role trigger_collection)
    (on_export_audit_pack : IsClear role export_audit_pack)
    (on_manage_credentials : IsClear role manage_credentials)
    (on_manage_tenant : IsClear role manage_tenant) (on_manage_user : IsClear role manage_user)
    (on_run_policy : IsClear role run_policy) (on_token_manage : IsClear role token_manage)
    (on_verify_integrity : IsClear role verify_integrity) where
  contains_each : (permission : Permission) → IsClear role permission
  contains_each read_evidence = on_read_evidence
  contains_each read_report = on_read_report
  contains_each read_config = on_read_config
  contains_each read_policy = on_read_policy
  contains_each read_audit = on_read_audit
  contains_each trigger_collection = on_trigger_collection
  contains_each export_audit_pack = on_export_audit_pack
  contains_each manage_credentials = on_manage_credentials
  contains_each manage_tenant = on_manage_tenant
  contains_each manage_user = on_manage_user
  contains_each run_policy = on_run_policy
  contains_each token_manage = on_token_manage
  contains_each verify_integrity = on_verify_integrity

contains-clearance : (role : Role) (permission : Permission) → IsClear role permission
unfolding IsClear contains role_permissions
contains-clearance super_admin permission =
    contains_each super_admin refl refl refl refl refl refl refl refl refl refl refl refl refl
      permission
contains-clearance security_admin permission =
    contains_each security_admin refl refl refl refl refl refl refl refl refl refl refl refl refl
      permission
contains-clearance compliance_officer permission =
    contains_each compliance_officer refl refl refl refl refl refl refl refl refl refl refl refl
      refl permission
contains-clearance auditor permission =
    contains_each auditor refl refl refl refl refl refl refl refl refl refl refl refl refl
      permission
contains-clearance system_user permission =
    contains_each system_user refl refl refl refl refl refl refl refl refl refl refl refl refl
      permission
contains-clearance viewer permission =
    contains_each viewer refl refl refl refl refl refl refl refl refl refl refl refl refl permission
contains-clearance unauthenticated permission =
    contains_each unauthenticated refl refl refl refl refl refl refl refl refl refl refl refl refl
      permission

-- A user has a permission if and only if the permission's clearance is at most the rank of the
-- user's role.
pub has_permission-clearance :
    (user : UserIdentity) (permission : Permission)
    → has_permission user permission ≡ leb (clearance permission) (rank user.role)
unfolding has_permission IsClear
has_permission-clearance user permission = contains-clearance user.role permission

-- `assert_permission` passes, for the user given or else the current one, if and only if the rank
-- of that user's role reaches the permission's clearance.
pub assert_permission-ok_iff :
    (current : UserIdentity) (permission : Permission) (user : Option UserIdentity)
    → (assert_permission current permission user ≡ ok tt)
      ↔ (clearance permission ≤ rank (or_current user current).role)
unfolding assert_permission
assert_permission-ok_iff current permission user =
    let h = has_permission-clearance (or_current user current) permission in ground (arith, h)
