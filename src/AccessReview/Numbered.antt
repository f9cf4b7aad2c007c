-- ===== src/AccessReview/Numbered.antt =====
-- The ids of a campaign's items tell the items apart, so that each can be decided.
use soc2_sentinel.Base.{
  ℕ, ◌+◌, ◌<◌, String, ◌<>◌, ◌≡◌, refl, sym, ap, subst, ◌∙◌, inl, inr, false, List, [], ◌∷◌, ◌++◌,
  some, All, arith, ltb, Bool-cases, str_eq, str_eq_iff, show_nat,
}
use soc2_sentinel.Base.Decimal.{read_onto, read_onto-show_nat, read_onto-zero, read_onto-zeros}
use text.Mathlib.TextLemmas.{append_cancel_left}
use soc2_sentinel.AccessReview.{
  ReviewDecision, AccessReviewItem, AccessCampaign, Entitlement, record_decision, decide_items,
  decide, three_digits, User, IamEvidence, items_of, CampaignStore, create_campaign,
}
use soc2_sentinel.AccessReview.Lifecycle.{entitlements, Reaches, Reaches-IsConsistent}

read_onto-three_digits : (n : ℕ) → read_onto 0 (three_digits n) ≡ n
read_onto-three_digits n = elim (Bool-cases (ltb n 10)) [
  | inl units ↦ rw (units, three_digits) (read_onto-zeros (show_nat n) ∙ read_onto-show_nat n)
  | inr more ↦ elim (Bool-cases (ltb n 100)) [
    | inl tens ↦ rw (more, tens, three_digits) (read_onto-zero (show_nat n) ∙ read_onto-show_nat n)
    | inr hundreds ↦ rw (more, hundreds, three_digits) (read_onto-show_nat n)
  ]
]

abbrev id_of : String → ℕ → String
id_of campaign_id idx = campaign_id <> ("-item-" <> three_digits (idx + 1))

id_of-injective :
    (campaign_id : String) (i j : ℕ) → id_of campaign_id i ≡ id_of campaign_id j → i ≡ j
id_of-injective campaign_id i j h =
    let numbers =
      append_cancel_left "-item-" (three_digits (i + 1)) (three_digits (j + 1))
        (append_cancel_left campaign_id _ _ h) in
    let same : i + 1 ≡ j + 1 =
      sym (read_onto-three_digits (i + 1))
      ∙ ap (read_onto 0) numbers
      ∙ read_onto-three_digits (j + 1) in
    omega (arith, same)

-- No id comes twice.
abbrev pub AreDistinct : List (String × Entitlement) → Type 0
AreDistinct [] = Unit
AreDistinct (e ∷ es) =
    All (λ (f : String × Entitlement). str_eq e.0 f.0 ≡ false) es × AreDistinct es

module _ (campaign_id provider : String) where
  items_of-later :
      (i idx : ℕ) (users : List User)
      → i < idx
      → All
          (λ (f : String × Entitlement). str_eq (id_of campaign_id i) f.0 ≡ false)
          (entitlements (items_of campaign_id provider idx users))
  unfolding items_of
  items_of-later i idx [] h = tt
  items_of-later i idx (u ∷ users) h = (
    elim (Bool-cases (str_eq (id_of campaign_id i) (id_of campaign_id idx))) [
      | inr apart ↦ apart
      | inl same ↦
          let e = id_of-injective campaign_id i idx ((str_eq_iff _ _).0 same) in
          absurd (omega (arith, e, h))
    ],
    items_of-later i (idx + 1) users (omega arith),
  )

  items_of-AreDistinct :
      (idx : ℕ) (users : List User)
      → AreDistinct (entitlements (items_of campaign_id provider idx users))
  unfolding items_of
  items_of-AreDistinct idx [] = tt
  items_of-AreDistinct idx (u ∷ users) =
      (items_of-later idx (idx + 1) users (omega arith), items_of-AreDistinct (idx + 1) users)

-- With distinct ids, a decision on an item's id is one on that item.
decide_items-at :
    (now : String) (decision : ReviewDecision) (reviewer notes : String)
    (before after : List AccessReviewItem) (item : AccessReviewItem)
    → AreDistinct (entitlements (before ++ (item ∷ after)))
    → decide_items now item.item_id decision reviewer notes (before ++ (item ∷ after))
      ≡ some (before ++ (record_decision now decision reviewer notes item ∷ after))
unfolding decide_items
decide_items-at now decision reviewer notes [] after item h =
    rw ((str_eq_iff item.item_id item.item_id).1 refl, decide_items) refl
decide_items-at now decision reviewer notes (b ∷ before) after item (h, hs) =
    rw
      (
        apart before h,
        decide_items,
        decide_items-at now decision reviewer notes before after item hs,
      )
      refl
  where
    apart :
        (before : List AccessReviewItem)
        → All
            (λ (f : String × Entitlement). str_eq b.item_id f.0 ≡ false)
            (entitlements (before ++ (item ∷ after)))
        → str_eq b.item_id item.item_id ≡ false
    apart [] k = k.0
    apart (c ∷ before) k = apart before k.1

module _ (sha256 : String → String) (hmac_sha256 : String → String → String)
    (now campaign_id title period due_date : String) (evidence : IamEvidence) (tenant_id : String)
    (store : CampaignStore) where
  -- Whatever decisions and sign-offs follow on the creation of a campaign: a decision on the id of one of
  -- its items is recorded on that item, and leaves everything else in the campaign as it was.
  pub create_campaign-decided :
      {c : AccessCampaign} (later : String) (decision : ReviewDecision) (reviewer notes : String)
      (before after : List AccessReviewItem) (item : AccessReviewItem)
      → Reaches sha256 hmac_sha256
          (create_campaign now campaign_id title period due_date evidence tenant_id store).0
          c
      → c.items ≡ before ++ (item ∷ after)
      → decide later item.item_id decision reviewer notes c
        ≡ some (record c {
          items = before ++ (record_decision later decision reviewer notes item ∷ after);
        })
  unfolding create_campaign decide
  create_campaign-decided {c} later decision reviewer notes before after item r parts =
      let (_, same) = Reaches-IsConsistent sha256 hmac_sha256 (refl, refl, refl) r in
      let distinct =
        subst AreDistinct (sym same ∙ ap entitlements parts)
          (items_of-AreDistinct campaign_id _ 0 _) in
      rw (parts, decide, decide_items-at later decision reviewer notes before after item distinct)
        refl
