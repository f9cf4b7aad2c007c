-- ===== src/AuditRooms/Satisfied.antt =====
-- What a satisfied control in a crosswalk rests on.
use soc2_sentinel.Base.{
  String, Bool, true, ◌&&◌, List, [], ◌∷◌, ◌++◌, map, Option, none, some, ◌≡◌, refl, sym, ap, subst,
  ◌∙◌, arith, Bool-cases, inl, inr, str_eq, str_eq_iff, contains, All, if-both, if◌then◌else◌,
}
use soc2_sentinel.Python.{
  ok, Returns, returned, Returns-self, Returns-bind, Returns-ok, >>=-eq-ok, ok-injective, Floats,
}
use soc2_sentinel.Integrity.{ManifestCodec, verify_manifest}
use soc2_sentinel.Integrity.Intact.{IsIntact}
use soc2_sentinel.Integrity.Verdict.{verify_manifest-true}
use soc2_sentinel.AuditRooms.{
  criterion_of, candidate_dirs, Day, Artifact, ControlRow, find_file, is_subset, status_of_evidence,
  counts_as_complete, artifact, admitted, day_artifacts, artifacts_of, window_artifacts,
  control_row,
}

module _ {ℓ κ} {A : Type ℓ} where
  All-append : (P : A → Type κ) (xs ys : List A) → All P xs → All P ys → All P (xs ++ ys)
  All-append P [] ys h k = k
  All-append P (x ∷ xs) ys (h, hs) k = (h, All-append P xs ys hs k)

  All-weaken : (P Q : A → Type κ) → ((a : A) → P a → Q a) → (xs : List A) → All P xs → All Q xs
  All-weaken P Q f [] h = tt
  All-weaken P Q f (x ∷ xs) (h, hs) = (f x h, All-weaken P Q f xs hs)

-- The status of a control that is not satisfied.
abbrev status_short : List Artifact → String
status_short artifacts = elim artifacts [
  | [] ↦ "NO_EVIDENCE_IN_WINDOW"
  | _ ∷ _ ↦ "PARTIAL_EVIDENCE"
]

short : (artifacts : List Artifact) → ¬ (status_short artifacts ≡ "SATISFIED")
short [] h = ground (arith, (str_eq_iff "NO_EVIDENCE_IN_WINDOW" "SATISFIED").1 h)
short (a ∷ artifacts) h = ground (arith, (str_eq_iff "PARTIAL_EVIDENCE" "SATISFIED").1 h)

module _ (F : Floats) (C : ManifestCodec F) (sha256_hex : String → String) (hmac_key : String)
    (days : String → Option Day) where
  -- On this date, a folder that a collector may write to is intact and holds a report that does not say
  -- that the collection failed.
  pub record IsEvidenced (date collector : String) : Type 0 where
    pub day : Day
    pub folder : String
    pub name : String
    pub text : String
    pub there : days date ≡ some day
    pub found : find_file day (candidate_dirs collector) ≡ some (folder, name, text)
    pub complete : counts_as_complete F C sha256_hex hmac_key text ≡ true
    pub intact : IsIntact F C sha256_hex (day folder) hmac_key

  -- The artifacts of a day, and those of some days.
  abbrev AreOfDay : String → List Artifact → Type 0
  AreOfDay date = All (λ a. IsEvidenced a.date a.collector × (a.date ≡ date))

  abbrev AreOfDays : List String → List Artifact → Type 0
  AreOfDays dates = All (λ a. IsEvidenced a.date a.collector × (contains dates a.date ≡ true))

  and-true : (a b : Bool) → a && b ≡ true → (a ≡ true) × (b ≡ true)
  and-true a b h = ground (arith, h)

  admitted-AreOfDay :
      (date collector : String) (day : Day) (o : Option (String × String × String))
      → days date ≡ some day
      → find_file day (candidate_dirs collector) ≡ o
      → Returns (AreOfDay date) (admitted F C sha256_hex hmac_key date collector day o)
  admitted-AreOfDay date collector day none there found = returned {a = []} tt
  admitted-AreOfDay date collector day (some (folder, name, text)) there found =
      Returns-bind {P = λ v. verify_manifest F C sha256_hex (day folder) hmac_key ≡ ok v} _
        (Returns-self _) (λ verdict h. returned (ruled verdict h))
    where
      ruled :
          (verdict : Bool × List String)
          → verify_manifest F C sha256_hex (day folder) hmac_key ≡ ok verdict
          → AreOfDay date (
              if verdict.0 && counts_as_complete F C sha256_hex hmac_key text
              then artifact F C sha256_hex hmac_key date collector folder name text ∷ []
              else [])
      ruled verdict h =
          if-both (AreOfDay date) (verdict.0 && counts_as_complete F C sha256_hex hmac_key text)
            {x = artifact F C sha256_hex hmac_key date collector folder name text ∷ []} {y = []}
            (λ e.
              let (agreed, complete) =
                and-true verdict.0 (counts_as_complete F C sha256_hex hmac_key text) e in
              (
                (
                  record {
                    day = day;
                    folder = folder;
                    name = name;
                    text = text;
                    there = there;
                    found = found;
                    complete = complete;
                    intact =
                        verify_manifest-true F C sha256_hex (day folder) hmac_key verdict.1
                          (h ∙ ap (λ b. ok (b, verdict.1)) agreed);
                  },
                  refl,
                ),
                tt,
              ))
            (λ _. tt)

  day_artifacts-AreOfDay :
      (date : String) (day : Day) (collectors : List String)
      → days date ≡ some day
      → Returns (AreOfDay date) (day_artifacts F C sha256_hex hmac_key date day collectors)
  unfolding day_artifacts
  day_artifacts-AreOfDay date day [] there = returned {a = []} tt
  day_artifacts-AreOfDay date day (collector ∷ collectors) there =
      Returns-bind _
        (admitted-AreOfDay date collector day (find_file day (candidate_dirs collector)) there refl)
        (λ found h.
          Returns-bind _ (day_artifacts-AreOfDay date day collectors there)
            (λ rest k. returned (All-append _ found rest h k)))

  artifacts_of-AreOfDay :
      (date : String) (collectors : List String) (o : Option Day)
      → days date ≡ o
      → Returns (AreOfDay date) (artifacts_of F C sha256_hex hmac_key date collectors o)
  artifacts_of-AreOfDay date collectors none there = returned {a = []} tt
  artifacts_of-AreOfDay date collectors (some day) there =
      day_artifacts-AreOfDay date day collectors there

  window_artifacts-AreOfDays :
      (collectors dates : List String)
      → Returns (AreOfDays dates) (window_artifacts F C sha256_hex hmac_key days collectors dates)
  unfolding window_artifacts contains
  window_artifacts-AreOfDays collectors [] = returned {a = []} tt
  window_artifacts-AreOfDays collectors (date ∷ dates) =
      Returns-bind _ (artifacts_of-AreOfDay date collectors (days date) refl) (λ found h.
        Returns-bind _ (window_artifacts-AreOfDays collectors dates) (λ rest k. returned (
          All-append _ found rest
            (All-weaken _ _ (λ a (e, same). (e, ground (arith, (str_eq_iff a.date date).1 same)))
              found h)
            (All-weaken _ _ (λ a (e, within). (e, ground (arith, within))) rest k))))

  -- What a control needs of a collector: a date in the window on which it is evidenced.
  abbrev pub IsCovered : List String → String → Type 0
  IsCovered dates collector =
      (date : String) × (contains dates date ≡ true) × IsEvidenced date collector

  collected :
      (dates : List String) (artifacts : List Artifact) (collector : String)
      → AreOfDays dates artifacts
      → contains (map (λ a. a.collector) artifacts) collector ≡ true
      → IsCovered dates collector
  unfolding contains
  collected dates [] collector h k = absurd (ground (arith, k))
  collected dates (a ∷ artifacts) collector ((e, within), h) k =
      elim (Bool-cases (str_eq collector a.collector)) [
        | inl same ↦ (
          a.date,
          within,
          subst (IsEvidenced a.date) (sym ((str_eq_iff collector a.collector).0 same)) e,
        )
        | inr other ↦ collected dates artifacts collector h (ground (arith, other, k))
      ]

  covered :
      (dates : List String) (artifacts : List Artifact) (collectors : List String)
      → AreOfDays dates artifacts
      → is_subset collectors (map (λ a. a.collector) artifacts) ≡ true
      → All (IsCovered dates) collectors
  covered dates artifacts [] h k = tt
  covered dates artifacts (collector ∷ collectors) h k =
      let (first, rest) = and-true (contains (map (λ a. a.collector) artifacts) collector) _ k in
      (collected dates artifacts collector h first, covered dates artifacts collectors h rest)

  satisfied-is_subset :
      (collectors : List String) (artifacts : List Artifact)
      → status_of_evidence collectors artifacts ≡ "SATISFIED"
      → is_subset collectors (map (λ a. a.collector) artifacts) ≡ true
  unfolding status_of_evidence
  satisfied-is_subset [] artifacts h = refl
  satisfied-is_subset (name ∷ names) artifacts h =
      elim (Bool-cases (is_subset (name ∷ names) (map (λ a. a.collector) artifacts))) [
        | inl e ↦ e
        | inr e ↦ absurd (
            short artifacts
              (ap (λ b. if b then "SATISFIED" else status_short artifacts) (sym e) ∙ h))
      ]

  -- A control that the crosswalk calls satisfied has, for every collector that it requires, a date in the
  -- window on which a folder for the collector passes the verification of its manifest and holds a
  -- report that does not say that the collection failed.
  pub control_row-satisfied :
      (dates : List String) (control_id : String) (row : ControlRow)
      → control_row F C sha256_hex hmac_key days dates control_id ≡ ok row
      → row.evidence_status ≡ "SATISFIED"
      → All (IsCovered dates) (criterion_of control_id).required_collectors
  unfolding control_row
  control_row-satisfied dates control_id row h satisfied =
      let (artifacts, found, last) =
        >>=-eq-ok
          (window_artifacts F C sha256_hex hmac_key days
            (criterion_of control_id).required_collectors dates)
          _ h in
      covered dates artifacts (criterion_of control_id).required_collectors
        (Returns-ok (subst (Returns (AreOfDays dates)) found (window_artifacts-AreOfDays _ dates)))
        (satisfied-is_subset _ artifacts
          (ap (λ r. r.evidence_status) (ok-injective _ row last) ∙ satisfied))
