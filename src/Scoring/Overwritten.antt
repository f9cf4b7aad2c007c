-- ===== src/Scoring/Overwritten.antt =====
-- Reports that name the same collector: the folder that is listed last decides.
use soc2_sentinel.Base.{
  String, ◌≡◌, refl, ◌∙◌, inl, inr, Bool, true, false, some, List, [], ◌∷◌, ◌++◌, Bool-cases,
  Option-cases, str_eq,
}
use soc2_sentinel.Python.{ok, Floats, Val, null, str, dict, Fields, get, is_text, truthy}
use soc2_sentinel.Drift.{Folder, hashed, canonical, evidence_file}
use soc2_sentinel.Scoring.Evidence.{
  EvidenceMap, evidence_of, named_collector, put, put_canonical, put_control, put_report,
  read_folder, read_folders,
}
use soc2_sentinel.Scoring.Sourced.{evidence_of-put, hashed_self}

text-hashed :
    (F : Floats) (v : Val F.Float) (name : String) → is_text v name ≡ true → hashed F v ≡ ok v
text-hashed F (str s) name h = refl
text-hashed F v name h = cc

module _ (F : Floats) (eq_key : Val F.Float → Val F.Float → Bool) (payload : Fields F.Float)
    (name : String) where
  -- The payload stands under the name.
  abbrev Holds : EvidenceMap F → Type 0
  Holds evidence = evidence_of F evidence name ≡ some payload

  put-Holds_new :
      (key : Val F.Float) (evidence : EvidenceMap F)
      → is_text key name ≡ true
      → Holds (put F eq_key key payload evidence)
  put-Holds_new key evidence h = evidence_of-put F eq_key key payload evidence name ∙ rw h refl

  put-Holds :
      (key : Val F.Float) (evidence : EvidenceMap F)
      → Holds evidence
      → Holds (put F eq_key key payload evidence)
  put-Holds key evidence h =
      evidence_of-put F eq_key key payload evidence name
      ∙ elim (Bool-cases (is_text key name)) [ inl e ↦ rw e refl | inr e ↦ rw e h ]

  put_canonical-Holds :
      (key : Val F.Float) (evidence : EvidenceMap F)
      → Holds evidence
      → Holds (put_canonical F eq_key key payload evidence)
  unfolding put_canonical
  put_canonical-Holds key evidence h = elim (Option-cases (canonical F key)) [
    | inl e ↦ rw (e, put_canonical) h
    | inr (other, e) ↦ rw (e, put_canonical) (put-Holds (str other) evidence h)
  ]

  put_control-Holds :
      (ctrl_id collector : Val F.Float) (evidence : EvidenceMap F)
      → Holds evidence
      → Holds (put_control F eq_key ctrl_id collector payload evidence)
  unfolding put_control
  put_control-Holds ctrl_id collector evidence h = elim (Bool-cases (truthy F ctrl_id)) [
    | inr empty ↦ rw (empty, put_control) (put_canonical-Holds collector evidence h)
    | inl given ↦
        rw (given, put_control)
          (elim (hashed_self F ctrl_id) [
            | inr (_, e) ↦ rw e h
            | inl e ↦ rw e (
                put_canonical-Holds collector _
                  (put_canonical-Holds ctrl_id _ (put-Holds ctrl_id evidence h)))
          ])
  ]

  put_report-Holds :
      (sub_name : String) (evidence : EvidenceMap F)
      → is_text (named_collector F sub_name payload) name ≡ true
      → Holds (put_report F eq_key sub_name payload evidence)
  unfolding put_report
  put_report-Holds sub_name evidence h =
      let collector = named_collector F sub_name payload in
      rw (text-hashed F collector name h, put_report)
        (put_control-Holds (get payload "control_id" null) collector _
          (put-Holds (str sub_name) _ (put-Holds_new collector evidence h)))

module _ (F : Floats) (eq_key : Val F.Float → Val F.Float → Bool) where
  -- If the folder that is listed last holds a report that gives a name as its collector (or, where it
  -- gives none, as its control, or is in a folder of that name), then this report is what stands
  -- under the name, whatever the folders before it hold.
  pub read_folders-last :
      (subs : List (Folder F)) (last : Folder F) (payload : Fields F.Float) (name : String)
      (evidence : EvidenceMap F)
      → last.is_dir ≡ true
      → str_eq last.name "manifests" ≡ false
      → evidence_file F last ≡ some (ok (dict payload))
      → is_text (named_collector F last.name payload) name ≡ true
      → evidence_of F (read_folders F eq_key (subs ++ (last ∷ [])) evidence) name ≡ some payload
  unfolding read_folders read_folder
  read_folders-last [] last payload name evidence folder unreserved there named =
      rw (folder, unreserved, there)
        (put_report-Holds F eq_key payload name last.name evidence named)
  read_folders-last (sub ∷ subs) last payload name evidence folder unreserved there named =
      read_folders-last subs last payload name (read_folder F eq_key sub evidence) folder unreserved
        there named
