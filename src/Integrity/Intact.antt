-- ===== src/Integrity/Intact.antt =====
-- When `verify_manifest` of sentinel/integrity.py finds nothing wrong.
use soc2_sentinel.Base.{
  String, ◌≡◌, ◌↔◌, refl, ap, sym, ◌∙◌, Bool, true, inl, inr, List, [], ◌∷◌, ◌++◌, some, arith,
  Option-cases,
}
use soc2_sentinel.Python.{
  Py, ok, >>=-eq-ok, Floats, Val, null, bool, int, float, str, dict, list, Fields, end, get,
  as_dict,
}
use soc2_sentinel.Vault.{Node, file, directory}
use soc2_sentinel.Integrity.{
  OutDir, ManifestCodec, no_issues, artifact_issues, unlisted_issues, hmac_issues, verify_fields,
  verify_text, verify_manifest,
}
use soc2_sentinel.Integrity.Issues.{
  AreMatching, IsSigned, AreListed, artifact_issues-nil, artifact_issues-AreMatching,
  unlisted_issues-nil, hmac_issues-nil,
}

module _ (F : Floats) (C : ManifestCodec F) (sha256_hex : String → String) (dir : OutDir) where
  -- A folder whose manifest says what is there.
  pub record IsIntact (hmac_key : String) : Type 0 where
    pub text : String
    pub manifest : Fields F.Float
    pub artifacts : Fields F.Float
    pub stands : dir.at "manifest.json" ≡ some (file text)
    pub read : C.loads text ≡ some (dict manifest)
    pub recorded : get manifest "artifacts" (dict end) ≡ dict artifacts
    pub matching : AreMatching F C sha256_hex dir artifacts
    pub listed : AreListed F C sha256_hex dir artifacts
    pub signed : IsSigned F C sha256_hex dir hmac_key artifacts (get manifest "hmac_sha256" null)

  append-nil_iff : (xs ys : List String) → xs ++ ys ≡ [] → (xs ≡ []) × (ys ≡ [])
  append-nil_iff [] ys h = (refl, h)
  append-nil_iff (x ∷ xs) ys h = absurd (ground (arith, h))

  as_dict-eq : (v : Val F.Float) (d : Fields F.Float) → as_dict v ≡ ok d → v ≡ dict d
  as_dict-eq (dict e) d h = ground (arith, h)
  as_dict-eq null d h = absurd (ground (arith, h))
  as_dict-eq (bool b) d h = absurd (ground (arith, h))
  as_dict-eq (int n) d h = absurd (ground (arith, h))
  as_dict-eq (float x) d h = absurd (ground (arith, h))
  as_dict-eq (str s) d h = absurd (ground (arith, h))
  as_dict-eq (list xs) d h = absurd (ground (arith, h))

  no_issues-nil :
      (issues : List String)
      → ◌≡◌ {A = Py (Bool × List String)} (ok (no_issues issues, issues)) (ok (true, []))
      → issues ≡ []
  no_issues-nil [] h = refl
  no_issues-nil (x ∷ issues) h = absurd (ground (arith, h))

  verify_fields-true :
      (hmac_key : String) (manifest : Fields F.Float)
      → verify_fields F C sha256_hex dir hmac_key manifest ≡ ok (true, [])
      → (artifacts : Fields F.Float) × (get manifest "artifacts" (dict end) ≡ dict artifacts)
        × AreMatching F C sha256_hex dir artifacts
        × AreListed F C sha256_hex dir artifacts
        × IsSigned F C sha256_hex dir hmac_key artifacts (get manifest "hmac_sha256" null)
  unfolding verify_fields
  verify_fields-true hmac_key manifest h =
      let (artifacts, e, k) = >>=-eq-ok (as_dict (get manifest "artifacts" (dict end))) _ h in
      let (wrong, f, l) = >>=-eq-ok (artifact_issues F C sha256_hex dir artifacts) _ k in
      let stored = get manifest "hmac_sha256" null in
      let others =
        unlisted_issues F C sha256_hex dir artifacts
        ++ hmac_issues F C sha256_hex hmac_key artifacts stored in
      let (a, b) = append-nil_iff wrong others (no_issues-nil (wrong ++ others) l) in
      let (u, s) =
        append-nil_iff (unlisted_issues F C sha256_hex dir artifacts)
          (hmac_issues F C sha256_hex hmac_key artifacts stored) b in
      (
        artifacts,
        as_dict-eq (get manifest "artifacts" (dict end)) artifacts e,
        artifact_issues-AreMatching F C sha256_hex dir artifacts (f ∙ ap ok a),
        (unlisted_issues-nil F C sha256_hex dir artifacts).0 u,
        (hmac_issues-nil F C sha256_hex dir hmac_key artifacts stored).0 s,
      )

  verify_text-true :
      (hmac_key text : String)
      → dir.at "manifest.json" ≡ some (file text)
      → verify_text F C sha256_hex dir hmac_key (C.loads text) ≡ ok (true, [])
      → IsIntact hmac_key
  verify_text-true hmac_key text e h = elim (Option-cases (C.loads text)) [
    | inl n ↦ absurd (ground (arith, n, h))
    | inr (value, r) ↦
        let (manifest, d, k) =
          >>=-eq-ok (as_dict value) (verify_fields F C sha256_hex dir hmac_key)
            (ap (verify_text F C sha256_hex dir hmac_key) (sym r) ∙ h) in
        let (artifacts, a, m, l, s) = verify_fields-true hmac_key manifest k in
        record {
          text = text;
          manifest = manifest;
          artifacts = artifacts;
          stands = e;
          read = r ∙ ap some (as_dict-eq value manifest d);
          recorded = a;
          matching = m;
          listed = l;
          signed = s;
        }
  ]

  verify_node-true :
      (hmac_key : String) (node : Node)
      → dir.at "manifest.json" ≡ some node
      → verify_manifest F C sha256_hex dir hmac_key ≡ ok (true, [])
      → IsIntact hmac_key
  unfolding verify_manifest
  verify_node-true hmac_key (file text) e h =
      verify_text-true hmac_key text e (ground (arith, e, h))
  verify_node-true hmac_key (directory _) e h = absurd (ground (arith, e, h))

  verify_manifest-IsIntact :
      (hmac_key : String)
      → verify_manifest F C sha256_hex dir hmac_key ≡ ok (true, [])
      → IsIntact hmac_key
  unfolding verify_manifest
  verify_manifest-IsIntact hmac_key h = elim (Option-cases (dir.at "manifest.json")) [
    | inl n ↦ absurd (ground (arith, n, h))
    | inr (node, e) ↦ verify_node-true hmac_key node e h
  ]

  IsIntact-verify_manifest :
      (hmac_key : String)
      → IsIntact hmac_key
      → verify_manifest F C sha256_hex dir hmac_key ≡ ok (true, [])
  unfolding verify_manifest verify_fields
  IsIntact-verify_manifest hmac_key i = ground (
    arith,
    i.stands,
    i.read,
    i.recorded,
    artifact_issues-nil F C sha256_hex dir i.artifacts i.matching,
    (unlisted_issues-nil F C sha256_hex dir i.artifacts).1 i.listed,
    (hmac_issues-nil F C sha256_hex dir hmac_key i.artifacts (get i.manifest "hmac_sha256" null)).1
        i.signed,
  )

  -- `verify_manifest` returns that a folder is in order exactly if it is: the manifest can be read, every
  -- recorded artifact is a file with the recorded digest, every file that is there is recorded, the manifest
  -- or the lock, and the manifest is signed under the key, or neither a signature nor a key is there.
  pub verify_manifest-ok_iff :
      (hmac_key : String)
      → (verify_manifest F C sha256_hex dir hmac_key ≡ ok (true, [])) ↔ IsIntact hmac_key
  verify_manifest-ok_iff hmac_key =
      (verify_manifest-IsIntact hmac_key, IsIntact-verify_manifest hmac_key)
