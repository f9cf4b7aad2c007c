-- ===== src/Integrity/Written.antt =====
-- A manifest that was just built and written is found to be in order, and what it does not protect.
use soc2_sentinel.Base.{
  String, ◌≡◌, ◌≢◌, refl, ap, sym, ◌∙◌, true, false, ◌||◌, ◌⊎◌, inl, inr, List, [], ◌∷◌, none, some,
  str_eq, str_eq_iff, arith, All, Bool-cases, if-both, subst, Option-cases, contains, if◌then◌else◌,
}
use soc2_sentinel.Python.{
  ok, ok-injective, >>=-eq-ok, Floats, Val, null, str, dict, Fields, end, field, get, set, get-set,
  has, truthy,
}
use soc2_sentinel.Vault.{Node, file, directory}
use soc2_sentinel.Integrity.{
  OutDir, ManifestCodec, write_file, is_allowed_file, collect_artifacts, unsigned_manifest,
  build_manifest, write_manifest, verify_fields, verify_manifest,
}
use soc2_sentinel.Integrity.Issues.{AreMatching, IsSigned}
use soc2_sentinel.Integrity.Intact.{verify_manifest-ok_iff}

module _ (F : Floats) (C : ManifestCodec F) (sha256_hex : String → String) where
  has-set :
      (d : Fields F.Float) (k j : String) (v : Val F.Float)
      → has (set d k v) j ≡ (str_eq j k || has d j)
  unfolding has set
  has-set end k j v = ground arith
  has-set (field i w d) k j v = ground (arith, str_eq_iff k i, str_eq_iff j i, has-set d k j v)

  AreMatching-set :
      (later : OutDir) (artifacts : Fields F.Float) (name contents : String)
      → later.at name ≡ some (file contents)
      → AreMatching F C sha256_hex later artifacts
      → AreMatching F C sha256_hex later (set artifacts name (str (sha256_hex contents)))
  unfolding set
  AreMatching-set later end name contents e m =
      ((contents, e, (str_eq_iff (sha256_hex contents) (sha256_hex contents)).1 refl), m)
  AreMatching-set later (field i w artifacts) name contents e (m, ms) =
      if-both (AreMatching F C sha256_hex later) (str_eq name i)
        (λ s. (
          (
            contents,
            ap later.at (sym ((str_eq_iff name i).0 s)) ∙ e,
            (str_eq_iff (sha256_hex contents) (sha256_hex contents)).1 refl,
          ),
          ms,
        ))
        (λ _. (m, AreMatching-set later artifacts name contents e ms))

  module _ (dir : OutDir) where
    -- One name is passed over or recorded.
    abbrev Collected : String → List String → Fields F.Float → Fields F.Float → Type 0
    Collected name names before artifacts =
        ((dir.at name ≡ none) × (collect_artifacts F C sha256_hex dir names before ≡ ok artifacts))
        ⊎ ((contents : String) × (dir.at name ≡ some (file contents))
            × (collect_artifacts F C sha256_hex dir names
                  (set before name (str (sha256_hex contents)))
                ≡ ok artifacts))

    collect_node :
        (name : String) (names : List String) (before artifacts : Fields F.Float) (node : Node)
        → dir.at name ≡ some node
        → collect_artifacts F C sha256_hex dir (name ∷ names) before ≡ ok artifacts
        → Collected name names before artifacts
    unfolding collect_artifacts
    collect_node name names before artifacts (file contents) e h =
        inr (contents, e, ground (arith, e, h))
    collect_node name names before artifacts (directory _) e h = absurd (ground (arith, e, h))

    collect_step :
        (name : String) (names : List String) (before artifacts : Fields F.Float)
        → collect_artifacts F C sha256_hex dir (name ∷ names) before ≡ ok artifacts
        → Collected name names before artifacts
    unfolding collect_artifacts
    collect_step name names before artifacts h = elim (Option-cases (dir.at name)) [
      | inl n ↦ inl (n, ground (arith, n, h))
      | inr (node, e) ↦ collect_node name names before artifacts node e h
    ]

    collect_artifacts-AreMatching :
        (later : OutDir) (names : List String) (before artifacts : Fields F.Float)
        → All (λ name. later.at name ≡ dir.at name) names
        → collect_artifacts F C sha256_hex dir names before ≡ ok artifacts
        → AreMatching F C sha256_hex later before
        → AreMatching F C sha256_hex later artifacts
    unfolding collect_artifacts
    collect_artifacts-AreMatching later [] before artifacts s h m =
        subst (AreMatching F C sha256_hex later) (ground (arith, h)) m
    collect_artifacts-AreMatching later (name ∷ names) before artifacts (s, ss) h m =
        elim (collect_step name names before artifacts h) [
          | inl (_, k) ↦ collect_artifacts-AreMatching later names before artifacts ss k m
          | inr (contents, e, k) ↦
              collect_artifacts-AreMatching later names
                (set before name (str (sha256_hex contents))) artifacts ss k
                (AreMatching-set later before name contents (s ∙ e) m)
        ]

    -- A name is recorded if it was before, or if it is collected and there.
    collect_artifacts-has :
        (names : List String) (before artifacts : Fields F.Float) (name : String)
        → collect_artifacts F C sha256_hex dir names before ≡ ok artifacts
        → dir.at name ≢ none
        → (has before name || contains names name) ≡ true
        → has artifacts name ≡ true
    unfolding collect_artifacts contains
    collect_artifacts-has [] before artifacts name h e k =
        let same : before ≡ artifacts = ground (arith, h) in
        subst (λ d. has d name ≡ true) same (ground (arith, k))
    collect_artifacts-has (n ∷ names) before artifacts name h e k =
        elim (collect_step n names before artifacts h) [
          | inl (none_there, l) ↦
              let other : str_eq name n ≡ false = elim (Bool-cases (str_eq name n)) [
                | inl s ↦ absurd (e (ap dir.at ((str_eq_iff name n).0 s) ∙ none_there))
                | inr s ↦ s
              ] in
              collect_artifacts-has names before artifacts name l e (ground (arith, other, k))
          | inr (contents, _, l) ↦
              collect_artifacts-has names (set before n (str (sha256_hex contents))) artifacts name
                l e (ground (arith, has-set before n name (str (sha256_hex contents)), k))
        ]

    -- Whatever files are in the folder are recorded by name.
    listed-AreListed :
        (later : OutDir) (names files : List String) (artifacts : Fields F.Float)
        → collect_artifacts F C sha256_hex dir names end ≡ ok artifacts
        → All
            (λ name. (dir.at name ≢ none) × ((contains names name || is_allowed_file name) ≡ true))
            files
        → All (λ name. (has artifacts name || is_allowed_file name) ≡ true) files
    unfolding has
    listed-AreListed later names [] artifacts h l = tt
    listed-AreListed later names (name ∷ files) artifacts h ((e, l), ls) = (
      elim (Bool-cases (is_allowed_file name)) [
        | inl a ↦ ground (arith, a)
        | inr a ↦
            ground
              (arith, collect_artifacts-has names end artifacts name h e (ground (arith, a, l)))
      ],
      listed-AreListed later names files artifacts h ls,
    )

  unwritten :
      (dir : OutDir) (manifest : Fields F.Float) (names : List String)
      → All (λ name. str_eq name "manifest.json" ≡ false) names
      → All (λ name. (write_manifest F C sha256_hex dir manifest).at name ≡ dir.at name) names
  unfolding write_manifest write_file
  unwritten dir manifest [] h = tt
  unwritten dir manifest (name ∷ names) (h, hs) =
      (ground (arith, h), unwritten dir manifest names hs)

  module _ (dir later : OutDir) (hmac_key : String) (artifacts : Fields F.Float) where
    -- What a manifest records.
    abbrev Records : Fields F.Float → Type 0
    Records manifest =
        (get manifest "artifacts" (dict end) ≡ dict artifacts)
        × IsSigned F C sha256_hex later hmac_key artifacts (get manifest "hmac_sha256" null)

    build-Records :
        (control_id now version : String)
        → ((content : String) → str_eq (C.hmac_sign hmac_key content) "" ≡ false)
        → Records (
            if str_eq hmac_key ""
            then unsigned_manifest F C sha256_hex control_id now version artifacts
            else set
                (unsigned_manifest F C sha256_hex control_id now version artifacts)
                "hmac_sha256"
                (str (C.hmac_sign hmac_key (C.canonical_json artifacts))))
    unfolding unsigned_manifest get set truthy
    build-Records control_id now version full =
        let signature = C.hmac_sign hmac_key (C.canonical_json artifacts) in
        if-both Records (str_eq hmac_key "") (λ e. (refl, inl (e, refl)))
          (λ e. (
            refl,
            inr (
              e,
              ground (arith, full (C.canonical_json artifacts)),
              (str_eq_iff signature signature).1 refl,
            ),
          ))

  -- The manifest that `build_manifest` returns and `write_manifest` writes is found to be in order by
  -- `verify_manifest` under the same HMAC key. The written files are none of them the manifest, every file in
  -- the folder is a written one or the manifest or the lock, JSON gives back the manifest, and an HMAC is no
  -- empty text.
  pub build_manifest-verified :
      (dir : OutDir) (written_files : List String) (control_id now version hmac_key : String)
      (manifest : Fields F.Float)
      → build_manifest F C sha256_hex dir control_id written_files now version hmac_key
        ≡ ok manifest
      → C.loads (C.dumps manifest) ≡ some (dict manifest)
      → ((content : String) → str_eq (C.hmac_sign hmac_key content) "" ≡ false)
      → All (λ name. str_eq name "manifest.json" ≡ false) written_files
      → All
          (λ name.
            (dir.at name ≢ none) × ((contains written_files name || is_allowed_file name) ≡ true))
          dir.files
      → verify_manifest F C sha256_hex (write_manifest F C sha256_hex dir manifest) hmac_key
        ≡ ok (true, [])
  unfolding build_manifest write_manifest write_file
  build_manifest-verified dir written_files control_id now version hmac_key manifest h json full
        plain listed =
      let (artifacts, k, l) =
        >>=-eq-ok (collect_artifacts F C sha256_hex dir written_files end) _ h in
      let later = write_manifest F C sha256_hex dir manifest in
      let (recorded, signed) =
        subst (Records dir later hmac_key artifacts) (ok-injective _ manifest l)
          (build-Records dir later hmac_key artifacts control_id now version full) in
      (verify_manifest-ok_iff F C sha256_hex later hmac_key).1 (record {
        text = C.dumps manifest;
        manifest = manifest;
        artifacts = artifacts;
        stands = refl;
        read = json;
        recorded = recorded;
        matching =
            collect_artifacts-AreMatching dir later written_files end artifacts
              (unwritten dir manifest written_files plain) k tt;
        listed =
            if-both (All (λ name. (has artifacts name || is_allowed_file name) ≡ true))
              (contains dir.files "manifest.json")
              (λ _. listed-AreListed dir later written_files dir.files artifacts k listed)
              (λ _. (
                ground arith,
                listed-AreListed dir later written_files dir.files artifacts k listed,
              ));
        signed = signed;
      })

  -- Any entry of a manifest but the artifacts and the signature, as the control or the time, can be changed
  -- without any change in what is found, also where an HMAC key is set.
  pub verify_fields_relabelled :
      (dir : OutDir) (hmac_key : String) (manifest : Fields F.Float) (key : String)
      (value : Val F.Float)
      → str_eq "artifacts" key ≡ false
      → str_eq "hmac_sha256" key ≡ false
      → verify_fields F C sha256_hex dir hmac_key (set manifest key value)
        ≡ verify_fields F C sha256_hex dir hmac_key manifest
  unfolding verify_fields
  verify_fields_relabelled dir hmac_key manifest key value a s =
      let recorded : get (set manifest key value) "artifacts" (dict end)
          ≡ get manifest "artifacts" (dict end) =
        ground (arith, get-set manifest key "artifacts" value (dict end), a) in
      let signed : get (set manifest key value) "hmac_sha256" null
          ≡ get manifest "hmac_sha256" null =
        ground (arith, get-set manifest key "hmac_sha256" value null, s) in
      rw (recorded, signed) refl
