-- ===== src/AccessReview/Lifecycle.antt =====
-- Campaigns as a state machine: what decisions and sign-offs lead to.
use soc2_sentinel.Base.{
  String, ◌≡◌, refl, sym, ap, subst, ◌==◌, ◌∙◌, ◌⊎◌, inl, inr, false, List, [], ◌∷◌, map, length,
  keep, Option, none, some, arith, Bool-cases, Option-cases, str_eq,
}
use soc2_sentinel.Python.{ok}
use soc2_sentinel.AccessReview.{
  ReviewDecision, pending, active, completed, Entitlement, AccessReviewItem, AccessCampaign,
  is_pending, is_complete, total_items, pending_count, record_decision, decide_items, decide,
  sign_off, sign_off_payload, closed, complete_and_sign,
}

-- What stands under review, and under which id.
abbrev pub entitlements : List AccessReviewItem → List (String × Entitlement)
entitlements = map λ i. (i.item_id, i.entitlement)

module _ (sha256 : String → String) (hmac_sha256 : String → String → String) where
  -- One decision, or the sign-off.
  pub data Step : AccessCampaign → AccessCampaign → Type 0 where
    decided :
        {c c' : AccessCampaign} (now item_id : String) (decision : ReviewDecision)
        (reviewer notes : String)
        → decide now item_id decision reviewer notes c ≡ some c'
        → Step c c'
    signed :
        {c c' : AccessCampaign} (now name : String) (secret : Option String)
        → complete_and_sign sha256 hmac_sha256 now name secret c ≡ ok c'
        → Step c c'

  pub data Reaches (c : AccessCampaign) : AccessCampaign → Type 0 where
    start : Reaches c c
    next : {c' c'' : AccessCampaign} → Reaches c c' → Step c' c'' → Reaches c c''

-- Either active and without any sign-off, or completed with a signatory and a hash.
abbrev pub IsConsistent : AccessCampaign → Type 0
IsConsistent c =
    ((c.status ≡ active) × (c.signatory ≡ none) × (c.sign_off_hash ≡ none))
    ⊎ ((c.status ≡ completed)
        × ((name : String) × (c.signatory ≡ some name))
        × ((hash : String) × (c.sign_off_hash ≡ some hash)))

decide_items-entitlements :
    (now item_id : String) (decision : ReviewDecision) (reviewer notes : String)
    (items items' : List AccessReviewItem)
    → decide_items now item_id decision reviewer notes items ≡ some items'
    → entitlements items' ≡ entitlements items
unfolding decide_items record_decision
decide_items-entitlements now item_id decision reviewer notes [] items' h = cc
decide_items-entitlements now item_id decision reviewer notes (item ∷ items) items' h =
    let decided_item = record_decision now decision reviewer notes item in
    elim (Bool-cases (str_eq item.item_id item_id)) [
      | inl e ↦
          let same : items' ≡ decided_item ∷ items = ground (arith, e, h) in ap entitlements same
      | inr e ↦ elim (Option-cases (decide_items now item_id decision reviewer notes items)) [
        | inl r ↦ absurd (ground (arith, e, r, h))
        | inr (rest, r) ↦
            let same : items' ≡ item ∷ rest = ground (arith, e, r, h) in
            ap entitlements same
            ∙ ap (λ l. (item.item_id, item.entitlement) ∷ l)
                (decide_items-entitlements now item_id decision reviewer notes items rest r)
      ]
    ]

-- What a decision leaves as it was.
decide-parts :
    (now item_id : String) (decision : ReviewDecision) (reviewer notes : String)
    (c c' : AccessCampaign)
    → decide now item_id decision reviewer notes c ≡ some c'
    → (items : List AccessReviewItem) × (decide_items now item_id decision reviewer notes c.items
        ≡ some items)
      × (c' ≡ record c { items = items })
unfolding decide
decide-parts now item_id decision reviewer notes c c' h =
    elim (Option-cases (decide_items now item_id decision reviewer notes c.items)) [
      | inl e ↦ absurd (ground (arith, e, h))
      | inr (items, e) ↦ (items, e, ground (arith, e, h))
    ]

pending_later :
    (item : AccessReviewItem) (rest : List AccessReviewItem)
    → (length (keep (λ i. is_pending i.decision) rest) == 0) ≡ false
    → (length (keep (λ i. is_pending i.decision) (item ∷ rest)) == 0) ≡ false
pending_later item rest h = ground (arith, h)

-- Some item is pending afterwards, if the decision is to leave it so.
decide_items-pending :
    (now item_id reviewer notes : String) (items items' : List AccessReviewItem)
    → decide_items now item_id pending reviewer notes items ≡ some items'
    → (length (keep (λ i. is_pending i.decision) items') == 0) ≡ false
unfolding decide_items record_decision
decide_items-pending now item_id reviewer notes [] items' h = cc
decide_items-pending now item_id reviewer notes (item ∷ items) items' h =
    let decided_item = record_decision now pending reviewer notes item in
    elim (Bool-cases (str_eq item.item_id item_id)) [
      | inl e ↦
          let same : items' ≡ decided_item ∷ items = ground (arith, e, h) in
          ap (λ l. length (keep (λ i. is_pending i.decision) l) == 0) same ∙ ground arith
      | inr e ↦ elim (Option-cases (decide_items now item_id pending reviewer notes items)) [
        | inl r ↦ absurd (ground (arith, e, r, h))
        | inr (rest, r) ↦
            let same : items' ≡ item ∷ rest = ground (arith, e, r, h) in
            ap (λ l. length (keep (λ i. is_pending i.decision) l) == 0) same
            ∙ pending_later item rest (decide_items-pending now item_id reviewer notes items rest r)
      ]
    ]

-- A decision can be recorded after the sign-off: the campaign stays as completed as it was, with the
-- same sign-off hash, even where the decision is set back to pending, so that the campaign is no
-- longer complete.
pub decide_reopened :
    (now item_id reviewer notes : String) (c c' : AccessCampaign)
    → decide now item_id pending reviewer notes c ≡ some c'
    → (c'.status ≡ c.status) × (c'.sign_off_hash ≡ c.sign_off_hash) × (is_complete c' ≡ false)
unfolding is_complete pending_count total_items
decide_reopened now item_id reviewer notes c c' h =
    let (items, e, same) = decide-parts now item_id pending reviewer notes c c' h in
    let open_item = decide_items-pending now item_id reviewer notes c.items items e in
    (
      ap (λ d. d.status) same,
      ap (λ d. d.sign_off_hash) same,
      ap is_complete same ∙ ground (arith, open_item),
    )

module _ (sha256 : String → String) (hmac_sha256 : String → String → String) where
  complete_and_sign-parts :
      (now name : String) (secret : Option String) (c c' : AccessCampaign)
      → complete_and_sign sha256 hmac_sha256 now name secret c ≡ ok c'
      → (c'.status ≡ completed)
        × (c'.signatory ≡ some name)
        × ((hash : String) × (c'.sign_off_hash ≡ some hash))
        × (c'.items ≡ c.items)
  unfolding complete_and_sign
  complete_and_sign-parts now name secret c c' h =
      let final = closed sha256 hmac_sha256 now name c in
      let signed = sign_off sha256 hmac_sha256 secret (sign_off_payload final) in
      let c'' : AccessCampaign = record final {
        sign_off_scheme = some signed.0;
        sign_off_hash = some signed.1;
      } in
      elim (Bool-cases (is_complete c)) [
        | inl e ↦
            let same : c' ≡ c'' = ground (arith, e, h) in
            (
              ap (λ d. d.status) same,
              ap (λ d. d.signatory) same,
              (signed.1, ap (λ d. d.sign_off_hash) same),
              ap (λ d. d.items) same,
            )
        | inr e ↦ absurd (ground (arith, e, h))
      ]

  Step-IsConsistent :
      {c c' : AccessCampaign}
      → Step sha256 hmac_sha256 c c'
      → IsConsistent c
      → IsConsistent c' × (entitlements c'.items ≡ entitlements c.items)
  Step-IsConsistent {c} {c'} (decided now item_id decision reviewer notes h) k =
      let (items, e, same) = decide-parts now item_id decision reviewer notes c c' h in
      (
        subst IsConsistent (sym same) k,
        ap (λ d. entitlements d.items) same
            ∙ decide_items-entitlements now item_id decision reviewer notes c.items items e,
      )
  Step-IsConsistent {c} {c'} (signed now name secret h) k =
      let (status, signatory, hash, items) = complete_and_sign-parts now name secret c c' h in
      (inr (status, (name, signatory), hash), ap entitlements items)

  -- Whatever decisions and sign-offs follow on one another, from a campaign that is active and not
  -- signed: the campaign is either still active and not signed, or completed with a signatory and a
  -- hash, and the items and entitlements under review are those of the start.
  pub Reaches-IsConsistent :
      {c c' : AccessCampaign}
      → (c.status ≡ active) × (c.signatory ≡ none) × (c.sign_off_hash ≡ none)
      → Reaches sha256 hmac_sha256 c c'
      → IsConsistent c' × (entitlements c'.items ≡ entitlements c.items)
  Reaches-IsConsistent fresh start = (inl fresh, refl)
  Reaches-IsConsistent fresh (next before step) =
      let (k, e) = Reaches-IsConsistent fresh before in
      let (l, f) = Step-IsConsistent step k in (l, f ∙ e)
