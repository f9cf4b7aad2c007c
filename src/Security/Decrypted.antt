-- ===== src/Security/Decrypted.antt =====
-- What is encrypted under a readable key id is decrypted again.
use soc2_sentinel.Base.{
  ℕ, zero, suc, ◌-◌, String, List, ◌++◌, Option, none, some, codes, ◌≡◌, sym, ap, ◌∙◌, arith,
  Bool-cases, inl, inr, str_eq, length, take, drop, length-append, length-take_le, take-append_self,
  drop-append, if◌then◌else◌,
}
use mathlib.Core.List.{append-nil}
use soc2_sentinel.Python.{
  Py, ok, raise, value_error, validation_error, ◌>>=◌, >>=-eq-ok, ok-injective,
}
use soc2_sentinel.Auth.{repeated, rstrip}
use soc2_sentinel.Auth.Parts.{Lacks, rstrip-append}
use soc2_sentinel.Security.{
  Bytes, Crypto, Environment, load_secret, kid_bytes, padded_kid, derive_key_v2, header_v2, key_id,
  or_default, read_text, seal, encrypt_bytes, open_parts, open_v2, open_blob, decrypt_bytes,
}

-- What the code relies on in AES-GCM and UTF-8.
pub record IsSound (X : Crypto) : Type 0 where
  pub decrypt-encrypt :
      (key nonce content associated : Bytes)
      → X.decrypt key nonce (X.encrypt key nonce content associated) (some associated) ≡ ok content
  pub replace-decode :
      (bytes : Bytes) (text : List ℕ) → X.decode bytes ≡ some text → X.decode_replace bytes ≡ text

length-repeated : (n c : ℕ) → length (repeated n c) ≡ n
length-repeated zero c = omega arith
length-repeated (suc n) c = omega (arith, length-repeated n c)

rstrip-Lacks : (c : ℕ) (xs : List ℕ) → Lacks c xs → rstrip c xs ≡ xs
rstrip-Lacks c xs h = ap (rstrip c) (sym (append-nil xs)) ∙ rstrip-append c 0 xs h

module _ (X : Crypto) (env : Environment) where
  length-padded_kid : length (padded_kid X (kid_bytes X env)) ≡ 32
  unfolding padded_kid kid_bytes
  length-padded_kid =
      let kid = kid_bytes X env in
      omega (
        arith,
        length-append kid (repeated (32 - length kid) 0),
        length-repeated (32 - length kid) 0,
        length-take_le 32 (X.encode (codes (key_id env))),
      )

  -- The parts of a blob are found again.
  open_v2-parts :
      (material : String) (salt kid nonce ciphertext : Bytes)
      → length salt ≡ 16
      → length kid ≡ 32
      → length nonce ≡ 12
      → open_v2 X material (header_v2 ++ (salt ++ (kid ++ (nonce ++ ciphertext))))
        ≡ open_parts X material salt kid nonce ciphertext
  unfolding open_v2
  open_v2-parts material salt kid nonce ciphertext s k n =
      let after_kid = nonce ++ ciphertext in
      let after_salt = kid ++ after_kid in
      let blob = header_v2 ++ (salt ++ after_salt) in
      ap
        (λ a.
          open_parts X material a (take 32 (drop 22 blob)) (take 12 (drop 54 blob)) (drop 66 blob))
        (take-append_self salt after_salt 16 s)
      ∙ ap (λ a. open_parts X material salt a (take 12 (drop 54 blob)) (drop 66 blob))
          (ap (take 32) (drop-append salt after_salt 16 0 s) ∙ take-append_self kid after_kid 32 k)
      ∙ ap (λ a. open_parts X material salt kid a (drop 66 blob))
          (ap (take 12) (drop-append salt after_salt 16 32 s ∙ drop-append kid after_kid 32 0 k)
            ∙ take-append_self nonce ciphertext 12 n)
      ∙ ap (open_parts X material salt kid nonce) (
          drop-append salt after_salt 16 44 s
          ∙ drop-append kid after_kid 32 12 k
          ∙ drop-append nonce ciphertext 12 0 n)

  -- What comes out of a sealed blob, from what the id of the key is decoded to.
  abbrev unsealed : Bytes → Bytes → Bytes → String → Option (List ℕ) → Py Bytes
  unsealed salt nonce content material decoded =
      let key = derive_key_v2 X material salt (rstrip 0 (X.decode_replace (kid_bytes X env))) in
      let associated = padded_kid X (kid_bytes X env) in
      read_text decoded >>= λ kid.
      X.decrypt (derive_key_v2 X material salt (or_default kid)) nonce
        (X.encrypt key nonce content associated) (some associated)

  open_blob-seal :
      (salt nonce content : Bytes) (material : String)
      → length salt ≡ 16
      → length nonce ≡ 12
      → Lacks 0 (kid_bytes X env)
      → open_blob X material (seal X salt nonce (kid_bytes X env) material content)
        ≡ unsealed salt nonce content material (X.decode (kid_bytes X env))
  unfolding seal decrypt_bytes padded_kid
  open_blob-seal salt nonce content material s n l =
      let kid = kid_bytes X env in
      open_v2-parts material salt (padded_kid X kid) nonce _ s length-padded_kid n
      ∙ ap (λ k. unsealed salt nonce content material (X.decode k))
          (rstrip-append 0 (32 - length kid) kid l)

  -- A secret that sealed a blob opens it.
  decrypt-seal :
      (salt nonce : Bytes) (secret : Option String) (content blob : Bytes)
      → length salt ≡ 16
      → length nonce ≡ 12
      → Lacks 0 (kid_bytes X env)
      → encrypt_bytes X env salt nonce secret content ≡ ok blob
      → (material : String) × (decrypt_bytes X env secret blob
          ≡ unsealed salt nonce content material (X.decode (kid_bytes X env)))
  unfolding encrypt_bytes decrypt_bytes
  decrypt-seal salt nonce secret content blob s n l h =
      let (material, loaded, sealed) = >>=-eq-ok (load_secret env secret) _ h in
      (material, ap (λ m. m >>= use_secret) loaded ∙ opened material sealed)
    where
      use_secret : String → Py Bytes
      use_secret material =
          if str_eq material "" then raise validation_error else open_blob X material blob

      refused : ¬ (raise validation_error ≡ ok blob)
      refused h = cc

      opened :
          (material : String)
          → (if str_eq material ""
              then raise validation_error
              else ok (seal X salt nonce (kid_bytes X env) material content))
            ≡ ok blob
          → use_secret material ≡ unsealed salt nonce content material (X.decode (kid_bytes X env))
      opened material h = elim (Bool-cases (str_eq material "")) [
        | inl e ↦ absurd (
            refused (
              ap
                (λ b.
                  if b
                  then raise validation_error
                  else ok (seal X salt nonce (kid_bytes X env) material content))
                (sym e)
              ∙ h))
        | inr e ↦
            let same = ok-injective _ _ (
              ap
                (λ b.
                  if b
                  then raise validation_error
                  else ok (seal X salt nonce (kid_bytes X env) material content))
                (sym e)
              ∙ h) in
            ap (λ b. if b then raise validation_error else open_blob X material blob) e
            ∙ ap (open_blob X material) (sym same)
            ∙ open_blob-seal salt nonce content material s n l
      ]

  -- The id of the key, cut to 32 bytes, is a text without a NUL.
  pub record IsReadable : Type 0 where
    pub kid : List ℕ
    pub decoded : X.decode (kid_bytes X env) ≡ some kid
    pub no_nul_byte : Lacks 0 (kid_bytes X env)
    pub no_nul : Lacks 0 kid
    pub is_text : or_default kid ≡ kid

  -- Under a key id that is a text without a NUL when it is cut to 32 bytes, with a salt of 16 bytes and a
  -- nonce of 12, whatever `encrypt_bytes` returns is decrypted to the data under the same secret and
  -- environment, given what AES-GCM and UTF-8 promise.
  pub decrypt_bytes-encrypt_bytes :
      IsSound X
      → IsReadable
      → (salt nonce : Bytes) (secret : Option String) (content blob : Bytes) → length salt ≡ 16
      → length nonce ≡ 12
      → encrypt_bytes X env salt nonce secret content ≡ ok blob
      → decrypt_bytes X env secret blob ≡ ok content
  decrypt_bytes-encrypt_bytes sound r salt nonce secret content blob s n h =
      let (material, opened) = decrypt-seal salt nonce secret content blob s n r.no_nul_byte h in
      let kid = r.kid in
      let associated = padded_kid X (kid_bytes X env) in
      let key = rstrip 0 (X.decode_replace (kid_bytes X env)) in
      opened
      ∙ ap (unsealed salt nonce content material) r.decoded
      ∙ ap
          (λ k.
            X.decrypt (derive_key_v2 X material salt k) nonce
              (X.encrypt (derive_key_v2 X material salt key) nonce content associated)
              (some associated))
          r.is_text
      ∙ ap
          (λ k.
            X.decrypt (derive_key_v2 X material salt kid) nonce
              (X.encrypt (derive_key_v2 X material salt k) nonce content associated)
              (some associated))
          (ap (rstrip 0) (sound.replace-decode (kid_bytes X env) kid r.decoded)
            ∙ rstrip-Lacks 0 kid r.no_nul)
      ∙ sound.decrypt-encrypt (derive_key_v2 X material salt kid) nonce content associated

  -- Where the cut goes through a character, what `encrypt_bytes` returns cannot be decrypted.
  pub decrypt_bytes-cut :
      (salt nonce : Bytes) (secret : Option String) (content blob : Bytes)
      → X.decode (kid_bytes X env) ≡ none
      → Lacks 0 (kid_bytes X env)
      → length salt ≡ 16
      → length nonce ≡ 12
      → encrypt_bytes X env salt nonce secret content ≡ ok blob
      → decrypt_bytes X env secret blob ≡ raise value_error
  decrypt_bytes-cut salt nonce secret content blob cut l s n h =
      let (material, opened) = decrypt-seal salt nonce secret content blob s n l h in
      opened ∙ ap (unsealed salt nonce content material) cut
