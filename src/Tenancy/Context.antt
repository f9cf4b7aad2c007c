-- ===== src/Tenancy/Context.antt =====
-- `TenantContext` of sentinel/tenancy.py, and the current one, which is an explicit state.
use soc2_sentinel.Base.{String, codes, ◌||◌, Option, str_eq, if◌then◌else◌}
use soc2_sentinel.Python.{Py, ok, raise, validation_error, Fields}
use soc2_sentinel.Tenancy.Slug.{is_slug}

module _ (F : Type 0) where
  pub record TenantContext : Type 0 where
    pub tenant_id : String
    pub tenant_name : String
    pub environment : String
    pub metadata : Fields F
    pub key_id : Option String

  -- The constructor with the test of `__post_init__`.
  unfoldable pub tenant_context :
      String → String → String → Fields F → Option String → Py TenantContext
  unfolding is_slug
  tenant_context tenant_id tenant_name environment metadata key_id =
      if str_eq tenant_id "default" || is_slug (codes tenant_id)
      then ok (record {
        tenant_id = tenant_id;
        tenant_name = tenant_name;
        environment = environment;
        metadata = metadata;
        key_id = key_id;
      })
      else raise validation_error

  -- `tenant_name or tenant_id`
  abbrev pub name_or_id : String → String → String
  name_or_id tenant_name tenant_id = if str_eq tenant_name "" then tenant_id else tenant_name

  -- The token that resets the context, which is the one before, and the new current context.
  abbrev pub set_current_tenant : TenantContext → TenantContext → TenantContext × TenantContext
  set_current_tenant tenant current = (current, tenant)

  abbrev pub reset_current_tenant : TenantContext → TenantContext → TenantContext
  reset_current_tenant token current = token

  -- The body of the `with`, from the new context on.
  abbrev pub run_in {ℓ} :
      {A : Type ℓ}
      → TenantContext
      → (TenantContext → Py A × TenantContext)
      → TenantContext
      → Py A × TenantContext
  run_in context body current =
      let set = set_current_tenant context current in
      let left = body set.1 in (left.0, reset_current_tenant set.0 left.1)

  -- `with tenant_scope(...): body`: the body starts with the new context as the current one, may set
  -- another, and returns or raises; the context before is then set again.
  unfoldable pub tenant_scope {ℓ} :
      {A : Type ℓ}
      → String
      → String
      → String
      → Option String
      → Fields F
      → (TenantContext → Py A × TenantContext)
      → TenantContext
      → Py A × TenantContext
  unfolding tenant_context
  tenant_scope tenant_id tenant_name environment key_id metadata body current =
      elim (tenant_context tenant_id (name_or_id tenant_name tenant_id) environment metadata
        key_id) [ ok context ↦ run_in context body current | raise e ↦ (raise e, current) ]
