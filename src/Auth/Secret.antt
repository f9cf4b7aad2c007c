-- ===== src/Auth/Secret.antt =====
-- `TokenManager.get_signing_secret` of sentinel/auth.py. The secret that a process makes up for itself
-- is an explicit state.
use soc2_sentinel.Base.{String, Option, none, some, if◌then◌else◌}
use soc2_sentinel.Python.{is_given}

abbrev pub secret_or : Option String → String → String
secret_or none rest = rest
secret_or (some secret) rest = secret

-- `secrets.token_hex(32)` gives `fresh`.
unfoldable pub get_signing_secret :
    Option String → Option String → String → Option String → String × Option String
get_signing_secret explicit env fresh ephemeral =
    if is_given explicit
    then (secret_or explicit "", ephemeral)
    else if is_given env
    then (secret_or env "", ephemeral)
    else (secret_or ephemeral fresh, some (secret_or ephemeral fresh))
