-- ===== src/AccessReview/Created.antt =====
-- Campaigns that are made of IAM evidence, and what can become of them.
use soc2_sentinel.Base.{ℕ, ◌+◌, String, ◌≡◌, refl, sym, subst, List, [], ◌∷◌, Option}
use soc2_sentinel.Python.{raise, value_error, get_or}
use soc2_sentinel.AccessReview.{
  AccessReviewItem, Entitlement, AccessCampaign, total_items, is_complete, complete_and_sign,
  IamEvidence, User, users_of, entitlement_of, items_of, CampaignStore, create_campaign,
}
use soc2_sentinel.AccessReview.Lifecycle.{entitlements, IsConsistent, Reaches, Reaches-IsConsistent}

-- The entitlements of users numbered from an index.
abbrev pub Matches : String → ℕ → List User → List (String × Entitlement) → Type 0
Matches provider idx [] [] = Unit
Matches provider idx (u ∷ users) ((_, e) ∷ rest) =
    (e ≡ entitlement_of provider idx u) × Matches provider (idx + 1) users rest
Matches provider idx _ _ = ⊥

items_of-Matches :
    (campaign_id provider : String) (idx : ℕ) (users : List User)
    → Matches provider idx users (entitlements (items_of campaign_id provider idx users))
unfolding items_of
items_of-Matches campaign_id provider idx [] = tt
items_of-Matches campaign_id provider idx (u ∷ users) =
    (refl, items_of-Matches campaign_id provider (idx + 1) users)

module _ (sha256 : String → String) (hmac_sha256 : String → String → String)
    (now campaign_id title period due_date : String) (evidence : IamEvidence) (tenant_id : String)
    (store : CampaignStore) where
  abbrev created : AccessCampaign
  created = (create_campaign now campaign_id title period due_date evidence tenant_id store).0

  -- Whatever decisions and sign-offs follow on the creation of a campaign: it is either active and not
  -- signed, or completed with a signatory and a hash, and what stands under review are, in this order,
  -- the entitlements of the users in the evidence, with the provider that the evidence names or else
  -- `aws`.
  pub create_campaign-Reaches :
      {c : AccessCampaign}
      → Reaches sha256 hmac_sha256 created c
      → IsConsistent c
        × Matches (get_or evidence.provider "aws") 0 (users_of evidence) (entitlements c.items)
  unfolding create_campaign
  create_campaign-Reaches {c} r =
      let (consistent, same) = Reaches-IsConsistent sha256 hmac_sha256 (refl, refl, refl) r in
      (
        consistent,
        subst (Matches (get_or evidence.provider "aws") 0 (users_of evidence)) (sym same)
            (items_of-Matches campaign_id _ 0 (users_of evidence)),
      )

  no_items :
      {items : List AccessReviewItem} (provider : String)
      → Matches provider 0 [] (entitlements items)
      → items ≡ []
  no_items {items = []} provider h = refl
  no_items {items = item ∷ items} provider h = absurd h

  -- A campaign that is made of evidence without users can be signed at no time: whatever decisions
  -- follow, every sign-off raises ValueError.
  pub create_campaign_unsignable :
      {c : AccessCampaign} (later name : String) (secret : Option String)
      → users_of evidence ≡ []
      → Reaches sha256 hmac_sha256 created c
      → complete_and_sign sha256 hmac_sha256 later name secret c ≡ raise value_error
  unfolding complete_and_sign is_complete total_items
  create_campaign_unsignable {c} later name secret nobody r =
      let provider = get_or evidence.provider "aws" in
      let matches = (create_campaign-Reaches r).1 in
      let empty =
        no_items provider
          (subst (λ users. Matches provider 0 users (entitlements c.items)) nobody matches) in
      rw (empty, complete_and_sign) refl
