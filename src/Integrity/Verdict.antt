-- ===== src/Integrity/Verdict.antt =====
-- What `verify_manifest` of sentinel/integrity.py returns, as a whole.
use soc2_sentinel.Base.{
  String, ◌≡◌, refl, ap, sym, ◌∙◌, subst, Bool, true, false, List, [], ◌∷◌, Option, none, some, inl,
  inr, Option-cases,
}
use soc2_sentinel.Python.{
  Py, ok, ◌>>=◌, Returns, returned, Returns-then, Returns-ok, Floats, Val, dict, Fields, end, get,
  as_dict,
}
use soc2_sentinel.Vault.{Node}
use soc2_sentinel.Integrity.{
  OutDir, ManifestCodec, no_issues, artifact_issues, verify_fields, verify_text, text_of_node,
  verify_manifest,
}
use soc2_sentinel.Integrity.Intact.{IsIntact, verify_manifest-ok_iff}

module _ (F : Floats) (C : ManifestCodec F) (sha256_hex : String → String) (dir : OutDir)
    (hmac_key : String) where
  -- The folder is in order if there are no issues.
  IsVerdict : Py (Bool × List String) → Type 0
  IsVerdict = Returns (λ verdict. verdict.0 ≡ no_issues verdict.1)

  verify_fields-IsVerdict :
      (manifest : Fields F.Float) → IsVerdict (verify_fields F C sha256_hex dir hmac_key manifest)
  unfolding IsVerdict verify_fields
  verify_fields-IsVerdict manifest =
      Returns-then (as_dict (get manifest "artifacts" (dict end))) _ (λ artifacts.
        Returns-then (artifact_issues F C sha256_hex dir artifacts) _ (λ wrong. returned refl))

  verify_text-IsVerdict :
      (value : Option (Val F.Float)) → IsVerdict (verify_text F C sha256_hex dir hmac_key value)
  unfolding IsVerdict
  verify_text-IsVerdict none = returned {a = (false, "manifest.json invalid JSON" ∷ [])} refl
  verify_text-IsVerdict (some value) = Returns-then (as_dict value) _ verify_fields-IsVerdict

  verify_manifest-IsVerdict : IsVerdict (verify_manifest F C sha256_hex dir hmac_key)
  unfolding IsVerdict verify_manifest
  verify_manifest-IsVerdict = elim (Option-cases (dir.at "manifest.json")) [
    | inl h ↦
        subst IsVerdict (ap verdict_of (sym h))
          (returned {a = (false, "manifest.json missing" ∷ [])} refl)
    | inr (node, h) ↦ subst IsVerdict (ap verdict_of (sym h)) (
        Returns-then (text_of_node F C sha256_hex node) _
          (λ text. verify_text-IsVerdict (C.loads text)))
  ]
    where
      verdict_of : Option Node → Py (Bool × List String)
      verdict_of none = ok (false, "manifest.json missing" ∷ [])
      verdict_of (some node) = text_of_node F C sha256_hex node >>= λ text.
          verify_text F C sha256_hex dir hmac_key (C.loads text)

  nothing : (issues : List String) → no_issues issues ≡ true → issues ≡ []
  nothing [] h = refl
  nothing (issue ∷ issues) h = cc

  -- A folder that is found to be in order is intact.
  pub verify_manifest-true :
      (issues : List String)
      → verify_manifest F C sha256_hex dir hmac_key ≡ ok (true, issues)
      → IsIntact F C sha256_hex dir hmac_key
  unfolding IsVerdict
  verify_manifest-true issues h =
      let agreed : true ≡ no_issues issues =
        Returns-ok (subst IsVerdict h verify_manifest-IsVerdict) in
      (verify_manifest-ok_iff F C sha256_hex dir hmac_key).0
        (h ∙ ap (λ i. ok (true, i)) (nothing issues (sym agreed)))
