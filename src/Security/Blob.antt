-- ===== src/Security/Blob.antt =====
-- Encryption of evidence in sentinel/security.py. AES-GCM, HKDF, SHA-256, UTF-8, the environment and the
-- random bytes are parameters; bytes are numbers, and a text is its code points where it is encoded.
use soc2_sentinel.Base.{
  ℕ, ◌-◌, String, ◌<>◌, Bool, true, false, List, [], ◌∷◌, ◌++◌, Option, none, some, Codes, codes,
  length, take, drop, str_eq, if◌then◌else◌,
}
use soc2_sentinel.Python.{Py, ok, raise, value_error, validation_error, ◌>>=◌, is_given, or_text}
use soc2_sentinel.Auth.{without_prefix, repeated, rstrip}

abbrev pub Bytes : Type 0
Bytes = List ℕ

pub record Crypto : Type 0 where
  pub encode : Codes → Bytes
  -- Strictly; none for a UnicodeDecodeError.
  pub decode : Bytes → Option Codes
  -- With `errors="replace"`.
  pub decode_replace : Bytes → Codes
  pub sha256 : Bytes → Bytes
  -- As secret, salt and info.
  pub hkdf : String → Bytes → Bytes → Bytes
  -- As key, nonce, data and associated data.
  pub encrypt : Bytes → Bytes → Bytes → Bytes → Bytes
  pub decrypt : Bytes → Bytes → Bytes → Option Bytes → Py Bytes

-- The variables, stripped, and what reading the key file gives.
pub record Environment : Type 0 where
  pub evidence_key_file : String
  pub evidence_key : String
  pub evidence_key_id : Option String
  pub read_key_file : Py String

abbrev pub header_v1 : Bytes
header_v1 = codes "SSENC1"

abbrev pub header_v2 : Bytes
header_v2 = codes "SSENC2"

unfoldable pub load_secret : Environment → Option String → Py String
load_secret env secret =
    if is_given secret
    then ok (or_text secret "")
    else if str_eq env.evidence_key_file ""
    then ok env.evidence_key
    else env.read_key_file

unfoldable pub key_id : Environment → String
key_id env = or_text env.evidence_key_id "default"

abbrev pub or_default : Codes → Codes
or_default [] = codes "default"
or_default (c ∷ cs) = c ∷ cs

abbrev pub read_text : Option Codes → Py Codes
read_text none = raise value_error
read_text (some text) = ok text

module _ (X : Crypto) where
  unfoldable pub derive_key_v1 : String → Bytes
  derive_key_v1 secret = X.sha256 (X.encode (codes ("sentinel-evidence-v1:" <> secret)))

  unfoldable pub derive_key_v2 : String → Bytes → Codes → Bytes
  derive_key_v2 secret salt kid =
      X.hkdf secret salt (X.encode (codes "sentinel-evidence-v2:" ++ kid))

  -- The id of the key, in 32 bytes.
  unfoldable pub kid_bytes : Environment → Bytes
  unfolding key_id
  kid_bytes env = take 32 (X.encode (codes (key_id env)))

  unfoldable pub padded_kid : Bytes → Bytes
  padded_kid kid = kid ++ repeated (32 - length kid) 0

  -- From where the secret is there.
  unfoldable pub seal : Bytes → Bytes → Bytes → String → Bytes → Bytes
  unfolding derive_key_v2 padded_kid rstrip
  seal salt nonce kid material content =
      let key = derive_key_v2 material salt (rstrip 0 (X.decode_replace kid)) in
      header_v2
      ++ (salt ++ (padded_kid kid ++ (nonce ++ X.encrypt key nonce content (padded_kid kid))))

  -- The salt and the nonce come from `os.urandom`.
  unfoldable pub encrypt_bytes : Environment → Bytes → Bytes → Option String → Bytes → Py Bytes
  unfolding load_secret kid_bytes seal
  encrypt_bytes env salt nonce secret content = do
    material ← load_secret env secret
    if str_eq material ""
        then raise validation_error
        else ok (seal salt nonce (kid_bytes env) material content)

  -- From the salt, the id of the key, the nonce and what is encrypted.
  abbrev pub open_parts : String → Bytes → Bytes → Bytes → Bytes → Py Bytes
  open_parts material salt kid_raw nonce ciphertext =
      read_text (X.decode (rstrip 0 kid_raw)) >>= λ kid.
      X.decrypt (derive_key_v2 material salt (or_default kid)) nonce ciphertext (some kid_raw)

  -- A blob of version 2.
  unfoldable pub open_v2 : String → Bytes → Py Bytes
  unfolding derive_key_v2 rstrip
  open_v2 material blob =
      open_parts material (take 16 (drop 6 blob)) (take 32 (drop 22 blob)) (take 12 (drop 54 blob))
        (drop 66 blob)

  abbrev pub open_blob : String → Bytes → Py Bytes
  open_blob material blob = elim (without_prefix header_v2 blob) [
    | some _ ↦ open_v2 material blob
    | none ↦ elim (without_prefix header_v1 blob) [
      | some _ ↦ X.decrypt (derive_key_v1 material) (take 12 (drop 6 blob)) (drop 18 blob) none
      | none ↦ raise validation_error
    ]
  ]

  unfoldable pub decrypt_bytes : Environment → Option String → Bytes → Py Bytes
  unfolding load_secret derive_key_v1 open_v2 without_prefix
  decrypt_bytes env secret blob = do
    material ← load_secret env secret
    if str_eq material "" then raise validation_error else open_blob material blob

unfoldable pub encryption_enabled : Environment → Bool → Py (Bool × Option String)
unfolding load_secret
encryption_enabled env config_flag = do
  secret ← load_secret env none
  (if str_eq secret ""
      then (if config_flag then raise validation_error else ok (false, none))
      else ok (true, some secret))

unfoldable pub encryption_header_version : Bytes → String
unfolding without_prefix
encryption_header_version blob = elim (without_prefix header_v2 blob) [
  | some _ ↦ "v2"
  | none ↦ elim (without_prefix header_v1 blob) [ some _ ↦ "v1" | none ↦ "unknown" ]
]
