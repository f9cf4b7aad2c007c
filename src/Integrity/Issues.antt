-- ===== src/Integrity/Issues.antt =====
-- When the parts of `verify_manifest` of sentinel/integrity.py find nothing wrong.
use soc2_sentinel.Base.{
  String, ◌<>◌, ◌≡◌, ◌↔◌, refl, Bool, true, false, not, ◌||◌, ◌⊎◌, inl, inr, List, [], ◌∷◌, none,
  some, str_eq, arith, All, keep, Bool-cases, Option-cases,
}
use soc2_sentinel.Python.{ok, Py-cases, Floats, Val, list, Fields, end, field, has, is_text, truthy}
use soc2_sentinel.Vault.{sorted, Node, file, directory}
use soc2_sentinel.Integrity.{
  OutDir, ManifestCodec, is_allowed_file, artifact_issues, unlisted_files, unlisted_issues,
  hmac_issues, as_items,
}

module _ (F : Floats) (C : ManifestCodec F) (sha256_hex : String → String) (dir : OutDir) where
  -- Every recorded artifact is a file with the recorded digest.
  abbrev pub AreMatching : Fields F.Float → Type 0
  AreMatching end = Unit
  AreMatching (field name expected artifacts) =
      ((contents : String) × (dir.at name ≡ some (file contents))
        × (is_text expected (sha256_hex contents) ≡ true))
      × AreMatching artifacts

  -- The HMAC of the artifacts is recorded where a key is set, and none where no key is set.
  abbrev pub IsSigned : String → Fields F.Float → Val F.Float → Type 0
  IsSigned hmac_key artifacts stored =
      ((str_eq hmac_key "" ≡ true) × (truthy F stored ≡ false))
      ⊎ ((str_eq hmac_key "" ≡ false)
          × (truthy F stored ≡ true)
          × (is_text stored (C.hmac_sign hmac_key (C.canonical_json artifacts)) ≡ true))

  abbrev pub AreListed : Fields F.Float → Type 0
  AreListed artifacts = All (λ name. (has artifacts name || is_allowed_file name) ≡ true) dir.files

  pub artifact_issues-nil :
      (artifacts : Fields F.Float)
      → AreMatching artifacts
      → artifact_issues F C sha256_hex dir artifacts ≡ ok []
  unfolding artifact_issues
  artifact_issues-nil end m = refl
  artifact_issues-nil (field name expected artifacts) ((contents, e, d), m) =
      ground (arith, e, d, artifact_issues-nil artifacts m)

  pub IsMatching : String → Val F.Float → Type 0
  IsMatching name expected =
      (contents : String) × (dir.at name ≡ some (file contents))
      × (is_text expected (sha256_hex contents) ≡ true)

  pub artifact_issues-node :
      (name : String) (expected : Val F.Float) (artifacts : Fields F.Float) (node : Node)
      → dir.at name ≡ some node
      → artifact_issues F C sha256_hex dir (field name expected artifacts) ≡ ok []
      → IsMatching name expected × (artifact_issues F C sha256_hex dir artifacts ≡ ok [])
  unfolding artifact_issues IsMatching
  artifact_issues-node name expected artifacts (file contents) e h =
      elim (Py-cases (artifact_issues F C sha256_hex dir artifacts)) [
        | inl (issues, k) ↦ elim (Bool-cases (is_text expected (sha256_hex contents))) [
          | inl m ↦ ((contents, e, m), ground (arith, e, k, m, h))
          | inr m ↦ absurd (ground (arith, e, k, m, h))
        ]
        | inr (x, k) ↦ absurd (ground (arith, e, k, h))
      ]
  artifact_issues-node name expected artifacts (directory _) e h = absurd (ground (arith, e, h))

  pub artifact_issues-none :
      (name : String) (expected : Val F.Float) (artifacts : Fields F.Float)
      → dir.at name ≡ none
      → ¬ (artifact_issues F C sha256_hex dir (field name expected artifacts) ≡ ok [])
  unfolding artifact_issues
  artifact_issues-none name expected artifacts e h =
      elim (Py-cases (artifact_issues F C sha256_hex dir artifacts)) [
        | inl (issues, k) ↦ ground (arith, e, k, h)
        | inr (x, k) ↦ ground (arith, e, k, h)
      ]

  pub artifact_issues-AreMatching :
      (artifacts : Fields F.Float)
      → artifact_issues F C sha256_hex dir artifacts ≡ ok []
      → AreMatching artifacts
  unfolding IsMatching
  artifact_issues-AreMatching end h = tt
  artifact_issues-AreMatching (field name expected artifacts) h =
      elim (Option-cases (dir.at name)) [
        | inl n ↦ absurd (artifact_issues-none name expected artifacts n h)
        | inr (node, e) ↦
            let (m, rest) = artifact_issues-node name expected artifacts node e h in
            (m, artifact_issues-AreMatching artifacts rest)
      ]

  pub keep-nil :
      (p : String → Bool) (names : List String)
      → (keep (λ name. not (p name)) names ≡ []) ↔ All (λ name. p name ≡ true) names
  keep-nil p [] = (λ _. tt, λ _. refl)
  keep-nil p (name ∷ names) = elim (Bool-cases (p name)) [
    | inl e ↦ (
      λ h. (e, (keep-nil p names).0 (ground (arith, e, h))),
      λ (_, hs). ground (arith, e, (keep-nil p names).1 hs),
    )
    | inr e ↦ (λ h. absurd (ground (arith, e, h)), λ (k, _). absurd (ground (arith, e, k)))
  ]

  pub unlisted_issues-unlisted :
      (artifacts : Fields F.Float)
      → (unlisted_issues F C sha256_hex dir artifacts ≡ [])
        ↔ (unlisted_files F C sha256_hex dir artifacts ≡ [])
  unfolding unlisted_issues
  unlisted_issues-unlisted artifacts = empty (unlisted_files F C sha256_hex dir artifacts)
    where
      empty :
          (names : List String)
          → (elim names [
            | [] ↦ []
            | name ∷ rest ↦
                ("unexpected unlisted files: "
                  <> F.show (list (as_items F C sha256_hex (sorted (name ∷ rest)))))
                ∷ []
          ]
              ≡ [])
            ↔ (names ≡ [])
      empty [] = (λ _. refl, λ _. refl)
      empty (name ∷ names) = (λ h. ground (arith, h), λ h. ground (arith, h))

  pub unlisted_issues-nil :
      (artifacts : Fields F.Float)
      → (unlisted_issues F C sha256_hex dir artifacts ≡ []) ↔ AreListed artifacts
  unfolding unlisted_files
  unlisted_issues-nil artifacts =
      let (f, g) = unlisted_issues-unlisted artifacts in
      let (h, k) = keep-nil (λ name. has artifacts name || is_allowed_file name) dir.files in
      (λ e. h (f e), λ a. g (k a))

  pub hmac_issues-nil :
      (hmac_key : String) (artifacts : Fields F.Float) (stored : Val F.Float)
      → (hmac_issues F C sha256_hex hmac_key artifacts stored ≡ [])
        ↔ IsSigned hmac_key artifacts stored
  unfolding hmac_issues
  hmac_issues-nil hmac_key artifacts stored = (forth, back)
    where
      forth :
          hmac_issues F C sha256_hex hmac_key artifacts stored ≡ []
          → IsSigned hmac_key artifacts stored
      forth h = elim (Bool-cases (str_eq hmac_key "")) [
        | inl e ↦ inl (e, ground (arith, e, h))
        | inr e ↦ inr (e, ground (arith, e, h), ground (arith, e, h))
      ]

      back :
          IsSigned hmac_key artifacts stored
          → hmac_issues F C sha256_hex hmac_key artifacts stored ≡ []
      back (inl (e, f)) = ground (arith, e, f)
      back (inr (e, f, g)) = ground (arith, e, f, g)
