-- ===== src/Auth/Tests.antt =====
-- The permission checks of `sentinel/auth.py` for one user.
use soc2_sentinel.Base.{
  Codes, codes, ◌≡◌, ◌↔◌, ◌≤◌, false, some, none, refl, Bool, arith, ◌++◌, ◌∷◌, if◌then◌else◌,
}
use soc2_sentinel.Python.{ok, dict, Fields, field, end, str, bool, int}
use soc2_sentinel.Python.Fixed.{fixed, Fixed}
use soc2_sentinel.Base.Int.{pos, ◌+ℤ◌}
use soc2_sentinel.Auth.{
  auditor, run_policy, UserIdentity, Codec, payload_for, role_name, verify_token, create_token,
  token_prefix, dot, get_signing_secret, anonymous, assert_permission,
}
use soc2_sentinel.Auth.Clearance.{assert_permission-ok_iff}
use soc2_sentinel.Auth.Issued.{IsFaithful, verify_token-create}
use soc2_sentinel.Auth.Claims.{IsClaimed}
use soc2_sentinel.Auth.Signed.{verify_token-signed}

abbrev alice : UserIdentity
alice = record {
  user_id = "alice";
  role = auditor;
  email = "alice@sentinel.local";
  tenant_id = "default";
  is_service_account = false;
}

assert_permission-ok_iff_example :
    (assert_permission (anonymous "default") run_policy (some alice) ≡ ok tt) ↔ (3 ≤ 2)
assert_permission-ok_iff_example =
    assert_permission-ok_iff (anonymous "default") run_policy (some alice)

-- A codec that knows one payload.
abbrev payload : Fields Fixed
payload = field "uid" (str "alice") (
    field "email" (str "alice@sentinel.local") (
      field "role" (str "AUDITOR") (
        field "tid" (str "default")
          (field "sa" (bool false) (field "exp" (int (pos 60)) (field "nonce" (str "00") end))))))

abbrev codec : Codec fixed
codec = record {
  Bytes = Unit {0};
  hmac_sha256 = λ key raw. codes key;
  b64encode = λ raw. codes "cGF5bA==";
  b64decode = λ text. ok tt;
  dumps = λ d. tt;
  loads = λ raw. ok (dict payload);
  Instant = Bool;
  seconds = λ now. pos 0;
  is_before = λ value now. ok now;
}

payload-IsFaithful : IsFaithful fixed codec (payload_for fixed codec alice (pos 60) "00")
unfolding payload_for role_name
payload-IsFaithful = record {
  encoded = (
    codes "cGF5bA",
    2,
    refl,
    (refl, (refl, (refl, (refl, (refl, (refl, tt)))))),
    (refl, (refl, (refl, (refl, (refl, (refl, tt)))))),
    omega arith,
    refl,
  );
  decoded = refl;
  loaded = (payload, refl, ((λ k v. refl), (λ k. refl)));
}

verify_token-create_example :
    (verify_token fixed codec none none "new"
      (create_token fixed codec none none "secret" none false alice (pos 60) "00").1
      false
      (create_token fixed codec none none "secret" none false alice (pos 60) "00").0).0
    ≡ (if false then none else some alice)
unfolding ◌+ℤ◌
verify_token-create_example =
    verify_token-create fixed codec none none "secret" "new" none false false alice (pos 60) "00"
      false payload-IsFaithful refl refl

accepted :
    (verify_token fixed codec (some "k") none "" none false (codes "sentinel_cGF5bA.k")).0
    ≡ some alice
unfolding verify_token
accepted = refl

verify_token-signed_example :
    (b64 : Codes) × (raw : Unit {0}) × (codes "sentinel_cGF5bA.k"
      ≡ token_prefix fixed codec
        ++ (b64 ++ (dot fixed codec ∷ codes (get_signing_secret (some "k") none "" none).0)))
    × (ok tt ≡ ok raw)
    × IsClaimed fixed codec false raw alice
verify_token-signed_example =
    verify_token-signed fixed codec (some "k") none "" none false (codes "sentinel_cGF5bA.k") alice
      accepted
