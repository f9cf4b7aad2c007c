-- ===== src/Scoring/Sourced.antt =====
-- What `_read_evidence_dir` puts under a name comes from a report that names it, in a folder of the
-- directory that was chosen.
use soc2_sentinel.Base.{
  String, ◌≡◌, refl, sym, ◌∙◌, subst, ap, ◌⊎◌, inl, inr, Bool, true, false, not, ◌||◌, Option, some,
  List, [], ◌∷◌, arith, Bool-cases, Option-cases, if-again, if-swap, str_eq, str_eq_iff,
  if◌then◌else◌,
}
use soc2_sentinel.Python.{
  Py, Exception, type_error, ok, raise, Floats, Val, null, str, list, dict, Fields, get, is_text,
  as_dict, truthy, ◌>>=◌, Py-cases,
}
use soc2_sentinel.Drift.{Folder, hashed, canonical, evidence_file}
use soc2_sentinel.Scoring.Evidence.{
  EvidenceMap, evidence_of, named_collector, is_str, same_key, put, put_canonical, put_control,
  put_report, put_file, read_folder, read_folders,
}

-- An entry of a list.
abbrev pub Among : {A : Type 0} → A → List A → Type 0
Among x [] = ⊥
Among x (y ∷ ys) = (x ≡ y) ⊎ Among x ys

module _ (F : Floats) where
  -- A key stands for a name: it is the name, or the control that the name's collector is for.
  abbrev pub Designates : Val F.Float → String → Type 0
  Designates key name = (is_text key name ≡ true) ⊎ (canonical F key ≡ some name)

  -- The report names it by its collector, its control or its folder.
  abbrev pub Names : String → Fields F.Float → String → Type 0
  Names sub_name payload name =
      Designates (get payload "collector" null) name
      ⊎ Designates (get payload "control_id" null) name
      ⊎ Designates (str sub_name) name

  -- One of the folders holds the report, and the report names it.
  pub record IsSourced (folders : List (Folder F)) (name : String) (payload : Fields F.Float)
      : Type 0 where
    pub folder : Folder F
    pub member : Among folder folders
    pub is_folder : folder.is_dir ≡ true
    pub unreserved : str_eq folder.name "manifests" ≡ false
    pub read : evidence_file F folder ≡ some (ok (dict payload))
    pub named : Names folder.name payload name

is_text-other : {F : Type 0} (v : Val F) (name : String) → is_str v ≡ false → is_text v name ≡ false
is_text-other (str s) name h = cc
is_text-other v name h = refl

module _ (F : Floats) (eq_key : Val F.Float → Val F.Float → Bool) where
  same_key-text :
      (key k : Val F.Float) (name : String)
      → same_key F eq_key key k ≡ true
      → is_text k name ≡ is_text key name
  same_key-text (str s) (str t) name h = ground (arith, str_eq_iff t s, str_eq_iff t name)
  same_key-text key k name h = ground (arith, is_text-other key name, is_text-other k name)

  other_key-text :
      (key k : Val F.Float) (name : String)
      → same_key F eq_key key k ≡ false
      → is_text key name ≡ true
      → is_text k name ≡ false
  other_key-text (str s) (str t) name h e =
      ground (arith, str_eq_iff t s, str_eq_iff t name, str_eq_iff s name)
  other_key-text (str s) k name h e = refl
  other_key-text key k name h e = absurd (ground (arith, is_text-other key name))

  pub evidence_of-put :
      (key : Val F.Float) (payload : Fields F.Float) (evidence : EvidenceMap F) (name : String)
      → evidence_of F (put F eq_key key payload evidence) name
        ≡ (if is_text key name then some payload else evidence_of F evidence name)
  unfolding evidence_of put
  evidence_of-put key payload [] name = refl
  evidence_of-put key payload ((k, d) ∷ evidence) name =
      elim (Bool-cases (same_key F eq_key key k)) [
        | inl same ↦ rw same (if-again _ _ _ _ _ (same_key-text key k name same))
        | inr other ↦
            rw (other, evidence_of-put key payload evidence name)
              (if-swap _ _ _ _ _ (other_key-text key k name other))
      ]

pub hashed_self :
    (F : Floats) (v : Val F.Float)
    → (hashed F v ≡ ok v) ⊎ ((e : Exception) × (hashed F v ≡ raise e))
hashed_self F (list _) = inr (type_error, refl)
hashed_self F (dict _) = inr (type_error, refl)
hashed_self F v = inl refl

payload_eq :
    {A : Type 0} (b : Bool) (x y : A) (rest : Option A)
    → b ≡ true
    → (if b then some x else rest) ≡ some y
    → x ≡ y
payload_eq b x y rest here e = ground (arith, here, e)

as_dict-ok :
    {F : Type 0} (content : Py (Val F)) (payload : Fields F)
    → (content >>= as_dict) ≡ ok payload
    → content ≡ ok (dict payload)
as_dict-ok (raise e) payload h = cc
as_dict-ok (ok (dict d)) payload h = ground (arith, h)
as_dict-ok (ok v) payload h = cc

module _ (F : Floats) (eq_key : Val F.Float → Val F.Float → Bool) (folders : List (Folder F)) where
  -- Whatever stands under a name comes from a folder whose report names it.
  abbrev pub AreSourced : EvidenceMap F → Type 0
  AreSourced evidence =
      (name : String) (payload : Fields F.Float)
      → evidence_of F evidence name ≡ some payload
      → IsSourced F folders name payload

  -- The payload may stand under all that the key stands for.
  abbrev Sources : Val F.Float → Fields F.Float → Type 0
  Sources key payload = (name : String) → Designates F key name → IsSourced F folders name payload

  put-AreSourced :
      (key : Val F.Float) (payload : Fields F.Float) (evidence : EvidenceMap F)
      → ((name : String) → is_text key name ≡ true → IsSourced F folders name payload)
      → AreSourced evidence
      → AreSourced (put F eq_key key payload evidence)
  put-AreSourced key payload evidence new old name found h =
      let e = sym (evidence_of-put F eq_key key payload evidence name) ∙ h in
      elim (Bool-cases (is_text key name)) [
        | inl here ↦
            subst (λ d. IsSourced F folders name d) (payload_eq _ _ _ _ here e) (new name here)
        | inr there ↦ old name found (ground (arith, e, there))
      ]

  put_canonical-AreSourced :
      (key : Val F.Float) (payload : Fields F.Float) (evidence : EvidenceMap F)
      → Sources key payload
      → AreSourced evidence
      → AreSourced (put_canonical F eq_key key payload evidence)
  unfolding put_canonical
  put_canonical-AreSourced key payload evidence new old = elim (Option-cases (canonical F key)) [
    | inl e ↦ rw (e, put_canonical) old
    | inr (name, e) ↦
        rw (e, put_canonical)
          (put-AreSourced (str name) payload evidence
            (λ other h.
              new other (inr (e ∙ ap (λ (s : String). some s) ((str_eq_iff name other).0 h))))
            old)
  ]

  put_control-AreSourced :
      (ctrl_id collector : Val F.Float) (payload : Fields F.Float) (evidence : EvidenceMap F)
      → Sources ctrl_id payload
      → Sources collector payload
      → AreSourced evidence
      → AreSourced (put_control F eq_key ctrl_id collector payload evidence)
  unfolding put_control
  put_control-AreSourced ctrl_id collector payload evidence by_id by_collector old =
      elim (Bool-cases (truthy F ctrl_id)) [
        | inr empty ↦
            rw empty (put_canonical-AreSourced collector payload evidence by_collector old)
        | inl given ↦ rw given (elim (hashed_self F ctrl_id) [
          | inr (_, e) ↦ rw e old
          | inl e ↦ rw e (
              put_canonical-AreSourced collector payload _ by_collector (
                put_canonical-AreSourced ctrl_id payload _ by_id
                  (put-AreSourced ctrl_id payload evidence (λ name h. by_id name (inl h)) old)))
        ])
      ]

  named_collector-Sources :
      (sub_name : String) (payload : Fields F.Float)
      → ((name : String) → Names F sub_name payload name → IsSourced F folders name payload)
      → Sources (named_collector F sub_name payload) payload
  named_collector-Sources sub_name payload new =
      elim (Bool-cases (truthy F (get payload "collector" null))) [
        | inl e ↦ rw e (λ name d. new name (inl d))
        | inr e ↦ rw e (elim (Bool-cases (truthy F (get payload "control_id" null))) [
          | inl e' ↦ rw e' (λ name d. new name (inr (inl d)))
          | inr e' ↦ rw e' (λ name d. new name (inr (inr d)))
        ])
      ]

  put_report-AreSourced :
      (sub_name : String) (payload : Fields F.Float) (evidence : EvidenceMap F)
      → ((name : String) → Names F sub_name payload name → IsSourced F folders name payload)
      → AreSourced evidence
      → AreSourced (put_report F eq_key sub_name payload evidence)
  unfolding put_report
  put_report-AreSourced sub_name payload evidence new old =
      let by_collector = named_collector-Sources sub_name payload new in
      elim (hashed_self F (named_collector F sub_name payload)) [
        | inr (_, e) ↦ rw (e, put_report) old
        | inl e ↦
            rw (e, put_report)
              (put_control-AreSourced (get payload "control_id" null)
                (named_collector F sub_name payload) payload _ (λ name d. new name (inr (inl d)))
                by_collector
                (put-AreSourced (str sub_name) payload _ (λ name h. new name (inr (inr (inl h))))
                  (put-AreSourced (named_collector F sub_name payload) payload evidence
                    (λ name h. by_collector name (inl h)) old)))
      ]

  read_folder-AreSourced :
      (sub : Folder F) (evidence : EvidenceMap F)
      → Among sub folders
      → AreSourced evidence
      → AreSourced (read_folder F eq_key sub evidence)
  unfolding read_folder
  read_folder-AreSourced sub evidence member old =
      elim (Bool-cases (not sub.is_dir || str_eq sub.name "manifests")) [
        | inl skipped ↦ rw skipped old
        | inr taken ↦ rw taken (elim (Option-cases (evidence_file F sub)) [
          | inl missing ↦ rw missing old
          | inr (content, there) ↦ rw there (elim (Py-cases (content >>= as_dict)) [
            | inr (_, e) ↦ rw (e, put_file) old
            | inl (payload, e) ↦
                rw (e, put_file)
                  (put_report-AreSourced sub.name payload evidence
                    (λ name named. record {
                      folder = sub;
                      member = member;
                      is_folder = ground (arith, taken);
                      unreserved = ground (arith, taken);
                      read =
                          there
                          ∙ ap (λ (c : Py (Val F.Float)). some c) (as_dict-ok content payload e);
                      named = named;
                    })
                    old)
          ])
        ])
      ]

  read_folders-AreSourced :
      (subs : List (Folder F)) (evidence : EvidenceMap F)
      → ((sub : Folder F) → Among sub subs → Among sub folders)
      → AreSourced evidence
      → AreSourced (read_folders F eq_key subs evidence)
  unfolding read_folders
  read_folders-AreSourced [] evidence h old = old
  read_folders-AreSourced (sub ∷ subs) evidence h old =
      read_folders-AreSourced subs (read_folder F eq_key sub evidence) (λ s m. h s (inr m))
        (read_folder-AreSourced sub evidence (h sub (inl refl)) old)

module _ (F : Floats) (eq_key : Val F.Float → Val F.Float → Bool) where
  -- What the loop over the folders leaves under a name is a report in one of them that names it.
  pub read_folders-IsSourced :
      (folders : List (Folder F)) (name : String) (payload : Fields F.Float)
      → evidence_of F (read_folders F eq_key folders []) name ≡ some payload
      → IsSourced F folders name payload
  unfolding evidence_of
  read_folders-IsSourced folders =
      read_folders-AreSourced F eq_key folders folders [] (λ s m. m) (λ name payload h. cc)
