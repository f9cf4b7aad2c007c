-- ===== src/Status/Unmeasured.antt =====
-- What `resolve_status` says of a control for which nothing was measured.
use soc2_sentinel.Base.{String, ◌≡◌, List, [], ◌∷◌, arith, contains, if◌then◌else◌}
use soc2_sentinel.Python.{ok, end, get, Floats}
use soc2_sentinel.Status.{
  green, yellow, resolve_status, int_or_zero, float_or_zero, iam_light, status_iam_access_review,
  status_encryption, status_logging, status_config_mfa, status_change_management, status_retention,
  status_generic_pass,
}

-- The controls that have a function of their own.
abbrev pub own_status : List String
own_status =
    "CC6.1" ∷ "CC6.3" ∷ "C1.1" ∷ "C1.2" ∷ "CC6.2" ∷ "CC7.1" ∷ "CC7.2" ∷ "CC8.1" ∷ "C1.4" ∷ []

-- Without any metric a control that has a function of its own is yellow, and every other control,
-- known or not, is green.
pub resolve_status_unmeasured :
    (F : Floats) (control_id : String)
    → resolve_status F control_id end
      ≡ ok (if contains own_status control_id then yellow else green)
unfolding resolve_status status_encryption status_logging status_config_mfa status_change_management
    status_retention status_generic_pass int_or_zero float_or_zero get contains iam_light
    status_iam_access_review
resolve_status_unmeasured F control_id = ground arith
