-- ===== src/Tenancy/Safe.antt =====
-- Which texts name a tenant: `TenantContext.__post_init__` of sentinel/tenancy.py.
use soc2_sentinel.Base.{
  ℕ, ◌≤◌, Codes, codes, String, ◌≡◌, refl, sym, ap, subst, ◌∙◌, ◌⊎◌, ◌↔◌, Bool, true, ◌||◌, [], ◌∷◌,
  ◌++◌, Option, str_eq, str_eq_iff, ◌==◌, arith, Bool-cases, inl, inr, All, length, if◌then◌else◌,
}
use soc2_sentinel.Python.{Py, ok, raise, validation_error, Fields, ok-injective}
use soc2_sentinel.Tenancy.{
  is_edge, is_inner, ends_slug, is_whole_slug, without_newline, is_slug, TenantContext,
  tenant_context,
}

-- From `a` to `z` or from `0` to `9`.
abbrev pub IsAlphanumeric : ℕ → Type 0
IsAlphanumeric c = ((97 ≤ c) × (c ≤ 122)) ⊎ ((48 ≤ c) × (c ≤ 57))

-- That, a hyphen or an underscore.
abbrev pub IsWordChar : ℕ → Type 0
IsWordChar c = IsAlphanumeric c ⊎ ((c ≡ 45) ⊎ (c ≡ 95))

-- From 3 to 64 of these characters, of which the first and the last are alphanumeric.
pub record IsTenantSlug (text : Codes) : Type 0 where
  pub first : ℕ
  pub inner : Codes
  pub last : ℕ
  pub spelled : text ≡ first ∷ (inner ++ (last ∷ []))
  pub starts : IsAlphanumeric first
  pub ends : IsAlphanumeric last
  pub words : All IsWordChar inner
  pub at_least : 3 ≤ length text
  pub at_most : length text ≤ 64

is_edge-IsAlphanumeric : (c : ℕ) → is_edge c ≡ true → IsAlphanumeric c
is_edge-IsAlphanumeric c h = grind (arith, h)

IsAlphanumeric-is_edge : (c : ℕ) → IsAlphanumeric c → is_edge c ≡ true
IsAlphanumeric-is_edge c (inl (h, k)) = ground (arith, h, k)
IsAlphanumeric-is_edge c (inr (h, k)) = ground (arith, h, k)

is_inner-IsWordChar : (c : ℕ) → is_inner c ≡ true → IsWordChar c
is_inner-IsWordChar c h = elim (Bool-cases (is_edge c)) [
  | inl e ↦ inl (is_edge-IsAlphanumeric c e)
  | inr e ↦ inr (grind (arith, e, h))
]

IsWordChar-is_inner : (c : ℕ) → IsWordChar c → is_inner c ≡ true
IsWordChar-is_inner c (inl h) = ground (arith, IsAlphanumeric-is_edge c h)
IsWordChar-is_inner c (inr (inl h)) = ground (arith, h)
IsWordChar-is_inner c (inr (inr h)) = ground (arith, h)

ends_slug-spelled :
    (text : Codes)
    → ends_slug text ≡ true
    → (inner : Codes) × (last : ℕ) × (text ≡ inner ++ (last ∷ []))
      × All IsWordChar inner
      × IsAlphanumeric last
unfolding ends_slug
ends_slug-spelled [] h = cc
ends_slug-spelled (c ∷ []) h = ([], c, refl, tt, is_edge-IsAlphanumeric c h)
ends_slug-spelled (c ∷ d ∷ text) h =
    let (inner, last, e, words, ends) = ends_slug-spelled (d ∷ text) (ground (arith, h)) in
    (c ∷ inner, last, ap (λ t. c ∷ t) e, (is_inner-IsWordChar c (ground (arith, h)), words), ends)

spelled-ends_slug :
    (inner : Codes) (last : ℕ)
    → All IsWordChar inner
    → IsAlphanumeric last
    → ends_slug (inner ++ (last ∷ [])) ≡ true
unfolding ends_slug
spelled-ends_slug [] last words ends = IsAlphanumeric-is_edge last ends
spelled-ends_slug (c ∷ []) last (word, _) ends =
    ground (arith, IsWordChar-is_inner c word, IsAlphanumeric-is_edge last ends)
spelled-ends_slug (c ∷ d ∷ inner) last (word, words) ends =
    ground (arith, IsWordChar-is_inner c word, spelled-ends_slug (d ∷ inner) last words ends)

is_whole_slug-IsTenantSlug : (text : Codes) → is_whole_slug text ≡ true → IsTenantSlug text
unfolding is_whole_slug
is_whole_slug-IsTenantSlug [] h = cc
is_whole_slug-IsTenantSlug (c ∷ text) h =
    let (inner, last, e, words, ends) = ends_slug-spelled text (ground (arith, h)) in
    record {
      first = c;
      inner = inner;
      last = last;
      spelled = ap (λ t. c ∷ t) e;
      starts = is_edge-IsAlphanumeric c (ground (arith, h));
      ends = ends;
      words = words;
      at_least = ground (arith, h);
      at_most = ground (arith, h);
    }

IsTenantSlug-is_whole_slug : (text : Codes) → IsTenantSlug text → is_whole_slug text ≡ true
unfolding is_whole_slug
IsTenantSlug-is_whole_slug text s =
    let short : 3 ≤ length (s.first ∷ (s.inner ++ (s.last ∷ []))) =
      subst (λ t. 3 ≤ length t) s.spelled s.at_least in
    let long : length (s.first ∷ (s.inner ++ (s.last ∷ []))) ≤ 64 =
      subst (λ t. length t ≤ 64) s.spelled s.at_most in
    ap is_whole_slug s.spelled
    ∙ ground (
      arith,
      short,
      long,
      IsAlphanumeric-is_edge s.first s.starts,
      spelled-ends_slug s.inner s.last s.words s.ends,
    )

-- The end of a slug is not a line break.
without_newline-append : (text : Codes) → without_newline (text ++ (b'\n' ∷ [])) ≡ text
unfolding without_newline
without_newline-append [] = ground arith
without_newline-append (c ∷ []) = ground arith
without_newline-append (c ∷ d ∷ text) = ground (arith, without_newline-append (d ∷ text))

-- What is left is the text, or the text without a line break at its end.
without_newline-cases :
    (text : Codes) → (without_newline text ≡ text) ⊎ (text ≡ without_newline text ++ (b'\n' ∷ []))
unfolding without_newline
without_newline-cases [] = inl refl
without_newline-cases (c ∷ []) = elim (Bool-cases (c == b'\n')) [
  | inl e ↦ inr (ground (arith, e))
  | inr e ↦ inl (ground (arith, e))
]
without_newline-cases (c ∷ d ∷ text) = elim (without_newline-cases (d ∷ text)) [
  | inl e ↦ inl (ap (λ t. c ∷ t) e)
  | inr e ↦ inr (ap (λ t. c ∷ t) e)
]

-- A slug, alone or with a line break at its end.
abbrev pub IsAccepted : Codes → Type 0
IsAccepted text =
    IsTenantSlug text ⊎ ((slug : Codes) × IsTenantSlug slug × (text ≡ slug ++ (b'\n' ∷ [])))

is_slug-IsAccepted : (text : Codes) → is_slug text ≡ true → IsAccepted text
unfolding is_slug
is_slug-IsAccepted text h = elim (Bool-cases (is_whole_slug text)) [
  | inl e ↦ inl (is_whole_slug-IsTenantSlug text e)
  | inr e ↦
      let slug = is_whole_slug-IsTenantSlug (without_newline text) (ground (arith, e, h)) in
      elim (without_newline-cases text) [
        | inl same ↦ inl (subst IsTenantSlug same slug)
        | inr split ↦ inr (without_newline text, slug, split)
      ]
]

IsAccepted-is_slug : (text : Codes) → IsAccepted text → is_slug text ≡ true
unfolding is_slug
IsAccepted-is_slug text (inl s) = ground (arith, IsTenantSlug-is_whole_slug text s)
IsAccepted-is_slug text (inr (slug, s, e)) =
    let whole = ap is_whole_slug (ap without_newline e ∙ without_newline-append slug) in
    ground (arith, whole ∙ IsTenantSlug-is_whole_slug slug s)

named :
    (tenant_id : String)
    → (str_eq tenant_id "default" || is_slug (codes tenant_id)) ≡ true
    → (tenant_id ≡ "default") ⊎ IsAccepted (codes tenant_id)
named tenant_id h = elim (Bool-cases (str_eq tenant_id "default")) [
  | inl e ↦ inl ((str_eq_iff tenant_id "default").0 e)
  | inr e ↦ inr (is_slug-IsAccepted (codes tenant_id) (ground (arith, e, h)))
]

accepts :
    (tenant_id : String)
    → (tenant_id ≡ "default") ⊎ IsAccepted (codes tenant_id)
    → (str_eq tenant_id "default" || is_slug (codes tenant_id)) ≡ true
accepts tenant_id (inl h) = ground (arith, (str_eq_iff tenant_id "default").1 h)
accepts tenant_id (inr h) = ground (arith, IsAccepted-is_slug (codes tenant_id) h)

not_ok : (F : Type 0) (context : TenantContext F) → ¬ (raise validation_error ≡ ok context)
not_ok F context h = cc

-- A context is made exactly of a tenant id that is `default` or a slug, which has from 3 to 64 lower case
-- letters, digits, hyphens and underscores with a letter or digit at either end, and which one line break
-- may follow; the context then holds what it was made of, and its id is the tenant id as it was given.
pub tenant_context-ok_iff :
    (F : Type 0) (tenant_id name environment : String) (metadata : Fields F)
    (key_id : Option String) (context : TenantContext F)
    → (tenant_context F tenant_id name environment metadata key_id ≡ ok context) ↔ (
        ((tenant_id ≡ "default") ⊎ IsAccepted (codes tenant_id))
        × (context ≡ record {
          tenant_id = tenant_id;
          tenant_name = name;
          environment = environment;
          metadata = metadata;
          key_id = key_id;
        }))
unfolding tenant_context
tenant_context-ok_iff F tenant_id name environment metadata key_id context =
    let made : TenantContext F = record {
      tenant_id = tenant_id;
      tenant_name = name;
      environment = environment;
      metadata = metadata;
      key_id = key_id;
    } in
    let test : Bool → Py (TenantContext F) = λ b. if b then ok made else raise validation_error in
    (
      λ h. elim (Bool-cases (str_eq tenant_id "default" || is_slug (codes tenant_id))) [
        | inl e ↦ (named tenant_id e, sym (ok-injective made context (ap test (sym e) ∙ h)))
        | inr e ↦ absurd (not_ok F context (ap test (sym e) ∙ h))
      ],
      λ (id, same). ap test (accepts tenant_id id) ∙ ap ok (sym same),
    )
