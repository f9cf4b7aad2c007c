-- ===== src/Tenancy/Separate.antt =====
-- The paths of different tenants.
use soc2_sentinel.Base.{
  String, ◌<>◌, ◌≡◌, ◌≢◌, refl, sym, ap, ◌∙◌, false, str_eq, str_eq_iff, Bool-cases, arith, inl,
  inr, if◌then◌else◌,
}
use text.Mathlib.TextLemmas.{append_cancel_left, append_cancel_right}
use text.Mathlib.Text.{starts_with}
use text.Mathlib.TextPositions.{starts_with-append}
use soc2_sentinel.Tenancy.{place, get_evidence_root, get_audit_log_path, get_config_dir}

default_apart :
    (path rest : String) → starts_with path "/tenants/" ≡ false → path ≢ "/tenants/" <> rest
default_apart path rest d h =
    cc (d, ap (λ p. starts_with p "/tenants/") h ∙ starts_with-append "/tenants/" rest)

-- The default tenant's path is none below the folder of tenants.
place-injective :
    (root default_rest rest t u : String)
    → starts_with default_rest "/tenants/" ≡ false
    → place root default_rest rest t ≡ place root default_rest rest u
    → t ≡ u
place-injective root default_rest rest t u d h =
    let tail =
      λ (x : String). if str_eq x "default" then default_rest else "/tenants/" <> (x <> rest) in
    let same = append_cancel_left root (tail t) (tail u) h in
    elim (Bool-cases (str_eq t "default")) [
      | inl a ↦ elim (Bool-cases (str_eq u "default")) [
        | inl b ↦ (str_eq_iff t "default").0 a ∙ sym ((str_eq_iff u "default").0 b)
        | inr b ↦ absurd (default_apart default_rest (u <> rest) d (ground (arith, a, b, same)))
      ]
      | inr a ↦ elim (Bool-cases (str_eq u "default")) [
        | inl b ↦ absurd (default_apart default_rest (t <> rest) d (ground (arith, a, b, same)))
        | inr b ↦
            append_cancel_right t u rest
              (append_cancel_left "/tenants/" (t <> rest) (u <> rest) (ground (arith, a, b, same)))
      ]
    ]

-- Different tenants have different folders of evidence, different folders of configuration, and different
-- audit logs.
pub get_evidence_root-separate :
    (root t u : String)
    → t ≢ u
    → (get_evidence_root root t ≢ get_evidence_root root u)
      × (get_config_dir root t ≢ get_config_dir root u)
      × (get_audit_log_path root t ≢ get_audit_log_path root u)
unfolding get_evidence_root get_config_dir get_audit_log_path
get_evidence_root-separate root t u h = (
  λ e. h (place-injective root "/evidence" "/evidence" t u refl e),
  λ e. h (place-injective root "/config" "/config" t u refl e),
  λ e. h (place-injective root "/sentinel-audit.jsonl" "/audit.jsonl" t u refl e),
)
