-- ===== src/Scoring/Backed.antt =====
-- The controls of a scorecard that is computed from an evidence directory.
use soc2_sentinel.Base.{
  String, ◌≡◌, refl, sym, subst, inl, inr, Bool, true, false, Option, none, some, List, [], ◌∷◌,
  All, arith, Bool-cases, Option-cases, some-injective, le_text, keep, if◌then◌else◌,
}
use soc2_sentinel.Base.Order.{le_text_refl, le_text_trans, le_text_total}
use soc2_sentinel.Python.{
  Returns, returned, Returns-bind, Returns-then, Returns-weaken, Floats, IsOrdered, Val, Fields,
  is_given,
}
use soc2_sentinel.Drift.{Run}
use soc2_sentinel.Scoring.{pass, ControlScore}
use soc2_sentinel.Scoring.Evidence.{
  EvidenceBase, EvidenceMap, evidence_of, is_candidate, newest, newest?, chosen_dir, read_folders,
  read_evidence_dir,
}
use soc2_sentinel.Scoring.Framework.{PillarMapping, compute_framework_summary}
use soc2_sentinel.Scoring.Scorecard.{
  ComplianceScorecard, soc2_pillars, nist_pillars, cmmc_pillars, zt_pillars, scorecard_of,
  compute_compliance_scorecard,
}
use soc2_sentinel.Scoring.Bounds.{IsWhole}
use soc2_sentinel.Scoring.Sound.{AreSound, collectors, all_controls-AreSound}
use soc2_sentinel.Scoring.Sourced.{IsSourced, read_folders-IsSourced}

module _ (F : Floats) where
  -- The one of two directories that has the later name.
  abbrev later : Run F → Run F → Run F
  later first d = if le_text d.name first.name then first else d

  later-le :
      (first d : Run F)
      → (le_text first.name (later first d).name ≡ true)
        × (le_text d.name (later first d).name ≡ true)
  later-le first d = elim (Bool-cases (le_text d.name first.name)) [
    | inl older ↦ rw (older, later) (le_text_refl first.name, older)
    | inr newer ↦ rw (newer, later) (le_text_total d.name first.name newer, le_text_refl d.name)
  ]

  newest-le :
      (first : Run F) (dirs : List (Run F)) (chosen : Run F)
      → newest F first dirs ≡ chosen
      → (le_text first.name chosen.name ≡ true)
        × All (λ (d : Run F). le_text d.name chosen.name ≡ true) dirs
  unfolding newest
  newest-le first [] chosen h =
      (subst (λ (d : Run F). le_text first.name d.name ≡ true) h (le_text_refl first.name), tt)
  newest-le first (d ∷ dirs) chosen h =
      let (le, rest) = newest-le (later first d) dirs chosen h in
      let (by_first, by_d) = later-le first d in
      (
        le_text_trans first.name (later first d).name chosen.name by_first le,
        (le_text_trans d.name (later first d).name chosen.name by_d le, rest),
      )

  -- No directory of evidence has a later name.
  abbrev pub IsNewest : Option (List (Run F)) → Run F → Type 0
  IsNewest none chosen = Unit
  IsNewest (some entries) chosen =
      All (λ (d : Run F). is_candidate F d ≡ true → le_text d.name chosen.name ≡ true) entries

  All-keep :
      (chosen : Run F) (entries : List (Run F))
      → All (λ (d : Run F). le_text d.name chosen.name ≡ true) (keep (is_candidate F) entries)
      → All (λ (d : Run F). is_candidate F d ≡ true → le_text d.name chosen.name ≡ true) entries
  All-keep chosen [] h = tt
  All-keep chosen (d ∷ entries) h = elim (Bool-cases (is_candidate F d)) [
    | inl e ↦ let (le, rest) = (rw e at h) in (λ _. le, All-keep chosen entries rest)
    | inr e ↦ (λ c. absurd (ground (arith, c, e)), All-keep chosen entries (rw e at h))
  ]

  newest?-le :
      (dirs : List (Run F)) (chosen : Run F)
      → newest? F dirs ≡ some chosen
      → All (λ (d : Run F). le_text d.name chosen.name ≡ true) dirs
  newest?-le [] chosen h = tt
  newest?-le (d ∷ dirs) chosen h = newest-le d dirs chosen (some-injective _ _ h)

  chosen_dir-IsNewest :
      (base : EvidenceBase F) (date_str : Option String) (chosen : Run F)
      → is_given date_str ≡ false
      → chosen_dir F base date_str ≡ some chosen
      → IsNewest base.entries chosen
  unfolding chosen_dir
  chosen_dir-IsNewest base date_str chosen h e = elim (Option-cases base.entries) [
    | inl missing ↦ rw missing tt
    | inr (entries, there) ↦ rw there (
        All-keep chosen entries
          (newest?-le (keep (is_candidate F) entries) chosen (rw (there, h) at e)))
  ]

module _ (F : Floats) (base : EvidenceBase F) (date_str : Option String) where
  -- A folder of the directory that was read, which is the newest where no date is given, holds a
  -- report that names the collector and is neither empty nor marked failed or partial.
  pub record IsBacked (collector : String) : Type 0 where
    pub directory : Run F
    pub chosen : chosen_dir F base date_str ≡ some directory
    pub latest : is_given date_str ≡ false → IsNewest F base.entries directory
    pub payload : Fields F.Float
    pub sourced : IsSourced F directory.folders collector payload
    pub whole : IsWhole F (some payload)

  abbrev pub AreBacked : List String → List (ControlScore F) → Type 0
  AreBacked [] [] = Unit
  AreBacked (k ∷ ks) (s ∷ ss) = (s.status ≡ pass → IsBacked k) × AreBacked ks ss
  AreBacked _ _ = ⊥

module _ (F : Floats) (eq_key : Val F.Float → Val F.Float → Bool) (base : EvidenceBase F)
    (date_str : Option String) where
  found-IsBacked :
      (collector : String) (directory : Run F) (found : Option (Fields F.Float))
      → chosen_dir F base date_str ≡ some directory
      → evidence_of F (read_folders F eq_key directory.folders []) collector ≡ found
      → IsWhole F found
      → IsBacked F base date_str collector
  found-IsBacked collector directory none chosen e whole = absurd whole
  found-IsBacked collector directory (some payload) chosen e whole = record {
    directory = directory;
    chosen = chosen;
    latest = λ h. chosen_dir-IsNewest F base date_str directory h chosen;
    payload = payload;
    sourced = read_folders-IsSourced F eq_key directory.folders collector payload e;
    whole = whole;
  }

  evidence_of-IsBacked :
      (collector : String)
      → IsWhole F (evidence_of F (read_evidence_dir F eq_key base date_str).1 collector)
      → IsBacked F base date_str collector
  unfolding read_evidence_dir evidence_of
  evidence_of-IsBacked collector whole = elim (Option-cases (chosen_dir F base date_str)) [
    | inl missing ↦ absurd (rw (missing, read_evidence_dir) at whole)
    | inr (directory, chosen) ↦
        found-IsBacked collector directory _ chosen refl (rw (chosen, read_evidence_dir) at whole)
  ]

  AreSound-AreBacked :
      (ks : List String) (ss : List (ControlScore F))
      → AreSound F (read_evidence_dir F eq_key base date_str).1 ks ss
      → AreBacked F base date_str ks ss
  AreSound-AreBacked [] [] h = tt
  AreSound-AreBacked (k ∷ ks) (s ∷ ss) h =
      (λ p. evidence_of-IsBacked k (h.0.whole p), AreSound-AreBacked ks ss h.1)
  AreSound-AreBacked [] (s ∷ ss) h = absurd h
  AreSound-AreBacked (k ∷ ks) [] h = absurd h

  scorecard_of-controls :
      (now : String) (provider : Option String) (evidence : EvidenceMap F)
      (controls : List (ControlScore F))
      → Returns
          (λ (card : ComplianceScorecard F). card.controls ≡ controls)
          (scorecard_of F now provider evidence controls)
  unfolding scorecard_of
  scorecard_of-controls now provider evidence controls =
      let summary = λ (id name : String) (pillars : PillarMapping).
        compute_framework_summary F id name controls pillars in
      Returns-then (summary "soc2" "SOC 2 Type II (Automated Scope / Posture)" soc2_pillars) _
        λ soc2.
          Returns-then
            (summary "nist-800-171" "NIST SP 800-171 / 800-172 (Automated Scope / Posture)"
              nist_pillars)
            _
            λ nist.
              Returns-then
                (summary "cmmc-l2" "CMMC 2.0 Level 2 (Automated Scope / Posture)" cmmc_pillars) _
                λ cmmc.
                  Returns-then
                    (summary "zero-trust" "CISA Zero Trust Maturity (Automated Scope / Posture)"
                      zt_pillars)
                    _ λ zero_trust. returned refl

  -- If the floats are ordered as `IsOrdered` says, then whatever the files are: in a scorecard that is
  -- returned, a control passes only if a folder of the directory that was read, other than `manifests`,
  -- holds a report that is neither empty nor marked failed or partial, and whose collector, control or
  -- folder has the name of the control's collector or is the control of that collector. Where no date
  -- is given, no directory of evidence has a later name than the one that was read.
  pub compute_compliance_scorecard-AreBacked :
      (now : String) (provider : Option String)
      → IsOrdered F
      → Returns
          (λ (card : ComplianceScorecard F). AreBacked F base date_str collectors card.controls)
          (compute_compliance_scorecard F eq_key now base date_str provider)
  unfolding compute_compliance_scorecard
  compute_compliance_scorecard-AreBacked now provider L =
      let evidence = (read_evidence_dir F eq_key base date_str).1 in
      Returns-bind (scorecard_of F now provider evidence) (all_controls-AreSound F evidence L)
        λ controls sound.
          let backed = AreSound-AreBacked collectors controls sound in
          Returns-weaken
            (λ card e. subst (λ ss. AreBacked F base date_str collectors ss) (sym e) backed)
            (scorecard_of-controls now provider evidence controls)
