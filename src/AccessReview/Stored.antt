-- ===== src/AccessReview/Stored.antt =====
-- What is written of a campaign and read back, in sentinel/access_review.py. A campaign's file is a JSON
-- dictionary whose fields, where they are there, have the types that `to_dict` gives them; the counts in
-- it, which nothing reads, are left out.
use soc2_sentinel.Base.{
  String, Bool, true, false, List, [], ◌∷◌, map, Option, some, str_eq, if◌then◌else◌,
}
use soc2_sentinel.Python.{Py, ok, raise, value_error, ◌>>=◌, required, get_or}
use soc2_sentinel.AccessReview.Campaign.{
  ReviewDecision, pending, maintain, revoke, modify, CampaignStatus, active, completed, archived,
  AccessReviewItem, AccessCampaign,
}
use soc2_sentinel.AccessReview.Signing.{value_of}

abbrev pub status_value : CampaignStatus → String
status_value active = "ACTIVE"
status_value completed = "COMPLETED"
status_value archived = "ARCHIVED"

-- `ReviewDecision(text)` and `CampaignStatus(text)`
unfoldable pub decision_of : String → Py ReviewDecision
decision_of text =
    if str_eq text "PENDING"
    then ok pending
    else if str_eq text "MAINTAIN"
    then ok maintain
    else if str_eq text "REVOKE"
    then ok revoke
    else if str_eq text "MODIFY"
    then ok modify
    else raise value_error

unfoldable pub status_of : String → Py CampaignStatus
status_of text =
    if str_eq text "ACTIVE"
    then ok active
    else if str_eq text "COMPLETED"
    then ok completed
    else if str_eq text "ARCHIVED"
    then ok archived
    else raise value_error

-- A field that is null is one that is not there.
pub record ItemData : Type 0 where
  pub item_id : Option String
  pub identity_name : Option String
  pub identity_email : Option String
  pub provider : Option String
  pub role_or_policy : Option String
  pub resource : Option String
  pub is_admin : Option Bool
  pub mfa_enabled : Option Bool
  pub last_login_date : Option String
  pub decision : Option String
  pub reviewer_notes : Option String
  pub reviewed_by : Option String
  pub reviewed_at : Option String

pub record CampaignData : Type 0 where
  pub campaign_id : Option String
  pub title : Option String
  pub period : Option String
  pub created_at : Option String
  pub due_date : Option String
  pub status : Option String
  pub completed_at : Option String
  pub signatory : Option String
  pub sign_off_hash : Option String
  pub sign_off_scheme : Option String
  pub items : Option (List ItemData)

unfoldable pub item_to_dict : AccessReviewItem → ItemData
item_to_dict item = record {
  item_id = some item.item_id;
  identity_name = some item.entitlement.identity_name;
  identity_email = some item.entitlement.identity_email;
  provider = some item.entitlement.provider;
  role_or_policy = some item.entitlement.role_or_policy;
  resource = some item.entitlement.resource;
  is_admin = some item.entitlement.is_admin;
  mfa_enabled = some item.entitlement.mfa_enabled;
  last_login_date = item.entitlement.last_login_date;
  decision = some (value_of item.decision);
  reviewer_notes = some item.reviewer_notes;
  reviewed_by = item.reviewed_by;
  reviewed_at = item.reviewed_at;
}

unfoldable pub campaign_to_dict : AccessCampaign → CampaignData
unfolding item_to_dict
campaign_to_dict campaign = record {
  campaign_id = some campaign.campaign_id;
  title = some campaign.title;
  period = some campaign.period;
  created_at = some campaign.created_at;
  due_date = some campaign.due_date;
  status = some (status_value campaign.status);
  completed_at = campaign.completed_at;
  signatory = campaign.signatory;
  sign_off_hash = campaign.sign_off_hash;
  sign_off_scheme = campaign.sign_off_scheme;
  items = some (map item_to_dict campaign.items);
}

unfoldable pub load_item : ItemData → Py AccessReviewItem
unfolding decision_of
load_item it = do
  item_id ← required it.item_id
  identity_name ← required it.identity_name
  identity_email ← required it.identity_email
  provider ← required it.provider
  role_or_policy ← required it.role_or_policy
  resource ← required it.resource
  decision ← decision_of (get_or it.decision "PENDING")
  ok (record {
    item_id = item_id;
    entitlement = record {
      identity_name = identity_name;
      identity_email = identity_email;
      provider = provider;
      role_or_policy = role_or_policy;
      resource = resource;
      is_admin = get_or it.is_admin false;
      mfa_enabled = get_or it.mfa_enabled true;
      last_login_date = it.last_login_date;
    };
    decision = decision;
    reviewer_notes = get_or it.reviewer_notes "";
    reviewed_by = it.reviewed_by;
    reviewed_at = it.reviewed_at;
  })

unfoldable pub load_review_items : List ItemData → Py (List AccessReviewItem)
unfolding load_item
load_review_items [] = ok []
load_review_items (it ∷ rest) = do
  item ← load_item it
  items ← load_review_items rest
  ok (item ∷ items)

unfoldable pub load_campaign : CampaignData → Py AccessCampaign
unfolding load_review_items status_of
load_campaign content = do
  items ← load_review_items (get_or content.items [])
  campaign_id ← required content.campaign_id
  title ← required content.title
  period ← required content.period
  created_at ← required content.created_at
  due_date ← required content.due_date
  status ← status_of (get_or content.status "ACTIVE")
  ok (record {
    campaign_id = campaign_id;
    title = title;
    period = period;
    created_at = created_at;
    due_date = due_date;
    status = status;
    completed_at = content.completed_at;
    signatory = content.signatory;
    sign_off_hash = content.sign_off_hash;
    sign_off_scheme = content.sign_off_scheme;
    items = items;
  })
