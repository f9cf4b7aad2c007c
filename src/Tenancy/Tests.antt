-- ===== src/Tenancy/Tests.antt =====
-- The theorems about sentinel/tenancy.py for a tenant of that name.
use soc2_sentinel.Base.{ℕ, String, codes, ◌↔◌, ◌⊎◌, ◌≡◌, ◌≢◌, refl, ap, str_eq, none}
use soc2_sentinel.Python.{ok, end}
use soc2_sentinel.Tenancy.{
  TenantContext, tenant_context, get_evidence_root, get_config_dir, get_audit_log_path,
}
use soc2_sentinel.Tenancy.Safe.{IsAccepted, tenant_context-ok_iff}
use soc2_sentinel.Tenancy.Separate.{get_evidence_root-separate}

abbrev acme : TenantContext ℕ
acme = record {
  tenant_id = "acme";
  tenant_name = "Acme";
  environment = "production";
  metadata = end;
  key_id = none;
}

acme-made : tenant_context ℕ "acme" "Acme" "production" end none ≡ ok acme
unfolding tenant_context
acme-made = refl

tenant_context-ok_iff_example :
    (tenant_context ℕ "acme" "Acme" "production" end none ≡ ok acme)
    ↔ (((◌≡◌ {A = String} "acme" "default") ⊎ IsAccepted (codes "acme")) × (acme ≡ acme))
tenant_context-ok_iff_example = tenant_context-ok_iff ℕ "acme" "Acme" "production" end none acme

acme-other : acme.tenant_id ≢ "default"
acme-other h = cc (ap (λ s. str_eq s "default") h)

get_evidence_root-separate_example :
    (get_evidence_root "/srv" "acme" ≢ get_evidence_root "/srv" "default")
    × (get_config_dir "/srv" "acme" ≢ get_config_dir "/srv" "default")
    × (get_audit_log_path "/srv" "acme" ≢ get_audit_log_path "/srv" "default")
get_evidence_root-separate_example = get_evidence_root-separate "/srv" "acme" "default" acme-other
