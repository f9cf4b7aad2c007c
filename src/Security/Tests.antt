-- ===== src/Security/Tests.antt =====
-- The theorems about sentinel/security.py for a cipher and an encoding that change nothing.
use soc2_sentinel.Base.{ℕ, List, Option, none, some, codes, ◌≡◌, refl}
use soc2_sentinel.Python.{ok}
use soc2_sentinel.Auth.{repeated}
use soc2_sentinel.Security.{
  Bytes, Crypto, Environment, kid_bytes, seal, encrypt_bytes, decrypt_bytes,
}
use soc2_sentinel.Security.Decrypted.{decrypt_bytes-encrypt_bytes}

-- With what decodes a text.
abbrev plain : (Bytes → Option (List ℕ)) → Crypto
plain decode = record {
  encode = λ text. text;
  decode = decode;
  decode_replace = λ bytes. bytes;
  sha256 = λ bytes. bytes;
  hkdf = λ secret salt info. info;
  encrypt = λ key nonce content associated. content;
  decrypt = λ key nonce ciphertext associated. ok ciphertext;
}

abbrev environment : Environment
environment = record {
  evidence_key_file = "";
  evidence_key = "secret";
  evidence_key_id = some "k1";
  read_key_file = ok "";
}

decrypt_bytes-encrypt_bytes_example :
    decrypt_bytes (plain some) environment none (
      seal
        (plain some)
        (repeated 16 1)
        (repeated 12 2)
        (kid_bytes (plain some) environment)
        "secret"
        (codes "hello"))
    ≡ ok (codes "hello")
unfolding encrypt_bytes
decrypt_bytes-encrypt_bytes_example =
    decrypt_bytes-encrypt_bytes (plain some) environment
      (record {
        decrypt-encrypt = λ key nonce content associated. refl;
        replace-decode = λ bytes text h. cc;
      })
      (record {
        kid = codes "k1";
        decoded = refl;
        no_nul_byte = (refl, (refl, tt));
        no_nul = (refl, (refl, tt));
        is_text = refl;
      })
      (repeated 16 1) (repeated 12 2) none (codes "hello") _ refl refl refl
