-- ===== src/AccessReview/Campaign.antt =====
-- `AccessReviewItem` and `AccessCampaign` of sentinel/access_review.py, and the decision that the
-- command line and the dashboard record.
use soc2_sentinel.Base.{
  ℕ, ◌==◌, ltb, String, Bool, true, false, ◌&&◌, List, [], ◌∷◌, length, keep, str_eq, Option, none,
  some, if◌then◌else◌,
}

pub data ReviewDecision : Type 0 where
  pending maintain revoke modify : ReviewDecision

pub data CampaignStatus : Type 0 where
  active completed archived : CampaignStatus

-- What is reviewed, apart from the review.
pub record Entitlement : Type 0 where
  pub identity_name : String
  pub identity_email : String
  pub provider : String
  pub role_or_policy : String
  pub resource : String
  pub is_admin : Bool
  pub mfa_enabled : Bool
  pub last_login_date : Option String

pub record AccessReviewItem : Type 0 where
  pub item_id : String
  pub entitlement : Entitlement
  pub decision : ReviewDecision
  pub reviewer_notes : String
  pub reviewed_by : Option String
  pub reviewed_at : Option String

pub record AccessCampaign : Type 0 where
  pub campaign_id : String
  pub title : String
  pub period : String
  pub created_at : String
  pub due_date : String
  pub status : CampaignStatus
  pub completed_at : Option String
  pub signatory : Option String
  pub sign_off_hash : Option String
  pub sign_off_scheme : Option String
  pub items : List AccessReviewItem

unfoldable pub record_decision :
    String → ReviewDecision → String → String → AccessReviewItem → AccessReviewItem
record_decision now decision reviewer notes item = record item {
  decision = decision;
  reviewed_by = some reviewer;
  reviewer_notes = notes;
  reviewed_at = some now;
}

abbrev pub is_pending : ReviewDecision → Bool
is_pending pending = true
is_pending _ = false

abbrev pub is_maintain : ReviewDecision → Bool
is_maintain maintain = true
is_maintain _ = false

abbrev pub is_revoke : ReviewDecision → Bool
is_revoke revoke = true
is_revoke _ = false

abbrev pub is_modify : ReviewDecision → Bool
is_modify modify = true
is_modify _ = false

unfoldable pub total_items : AccessCampaign → ℕ
total_items campaign = length campaign.items

unfoldable pub pending_count : AccessCampaign → ℕ
pending_count campaign = length (keep (λ i. is_pending i.decision) campaign.items)

unfoldable pub maintained_count : AccessCampaign → ℕ
maintained_count campaign = length (keep (λ i. is_maintain i.decision) campaign.items)

unfoldable pub revoked_count : AccessCampaign → ℕ
revoked_count campaign = length (keep (λ i. is_revoke i.decision) campaign.items)

unfoldable pub modified_count : AccessCampaign → ℕ
modified_count campaign = length (keep (λ i. is_modify i.decision) campaign.items)

unfoldable pub is_complete : AccessCampaign → Bool
unfolding total_items pending_count
is_complete campaign = ltb 0 (total_items campaign) && pending_count campaign == 0

-- The first item with the id is decided; none if there is no such item.
unfoldable pub decide_items :
    String
    → String
    → ReviewDecision
    → String
    → String
    → List AccessReviewItem
    → Option (List AccessReviewItem)
unfolding record_decision
decide_items now item_id decision reviewer notes [] = none
decide_items now item_id decision reviewer notes (item ∷ items) =
    let rest = decide_items now item_id decision reviewer notes items in
    if str_eq item.item_id item_id
    then some (record_decision now decision reviewer notes item ∷ items)
    else elim rest [ none ↦ none | some items' ↦ some (item ∷ items') ]

-- The command `uar decide`; none where it ends in an error.
unfoldable pub decide :
    String → String → ReviewDecision → String → String → AccessCampaign → Option AccessCampaign
unfolding decide_items
decide now item_id decision reviewer notes campaign =
    elim (decide_items now item_id decision reviewer notes campaign.items) [
      | none ↦ none
      | some items ↦ some (record campaign { items = items })
    ]
