-- ===== src/Tenancy/Storage.antt =====
-- `TenantStorageManager` of sentinel/tenancy.py: the paths of a tenant below the base root. The folders
-- that are made are a result.
use soc2_sentinel.Base.{
  String, ◌<>◌, codes, Bool, ◌&&◌, List, [], ◌∷◌, Option, none, some, str_eq, le_text,
  if◌then◌else◌,
}
use soc2_sentinel.Python.{Py, ok, ◌>>=◌, Fields}
use soc2_sentinel.Tenancy.Slug.{is_slug}
use soc2_sentinel.Tenancy.Context.{TenantContext, tenant_context, name_or_id}

-- The default tenant's path, or the other tenant's below its own folder.
abbrev pub place : String → String → String → String → String
place root default_rest rest tenant_id =
    root
    <> (if str_eq tenant_id "default" then default_rest else "/tenants/" <> (tenant_id <> rest))

-- `tenant_id or get_current_tenant_id()`
abbrev pub or_current_id : Option String → String → String
or_current_id none current = current
or_current_id (some tenant_id) current = if str_eq tenant_id "" then current else tenant_id

module _ (root : String) where
  unfoldable pub get_workspace_dir : String → String
  get_workspace_dir tenant_id = place root "" "" tenant_id

  unfoldable pub get_evidence_root : String → String
  get_evidence_root tenant_id = place root "/evidence" "/evidence" tenant_id

  unfoldable pub get_audit_log_path : String → String
  get_audit_log_path tenant_id = place root "/sentinel-audit.jsonl" "/audit.jsonl" tenant_id

  unfoldable pub get_config_dir : String → String
  get_config_dir tenant_id = place root "/config" "/config" tenant_id

  unfoldable pub create_tenant :
      {F : Type 0}
      → String
      → String
      → String
      → String
      → Fields F
      → Py (TenantContext F × List String)
  unfolding tenant_context get_workspace_dir get_evidence_root get_config_dir
  create_tenant {F} current tenant_id tenant_name environment metadata = do
    context ←
        tenant_context F tenant_id (name_or_id F tenant_name tenant_id) environment metadata none
    ok (
      context,
      get_workspace_dir (or_current_id (some tenant_id) current)
          ∷ get_evidence_root context.tenant_id
          ∷ get_config_dir context.tenant_id
          ∷ [],
    )

-- `sorted(list(set(tenants)))`
unfoldable pub insert_name : String → List String → List String
insert_name name [] = name ∷ []
insert_name name (n ∷ names) =
    let rest = insert_name name names in
    if str_eq name n then n ∷ names else if le_text name n then name ∷ n ∷ names else n ∷ rest

-- The entries of the folder of tenants are names, and whether they are folders.
unfoldable pub tenants_in : List (String × Bool) → List String
unfolding insert_name is_slug
tenants_in [] = "default" ∷ []
tenants_in ((name, is_dir) ∷ entries) =
    let rest = tenants_in entries in
    if is_dir && is_slug (codes name) then insert_name name rest else rest

unfoldable pub list_tenants : Option (List (String × Bool)) → List String
unfolding tenants_in
list_tenants none = "default" ∷ []
list_tenants (some entries) = tenants_in entries
