-- ===== src/AccessReview/Manager.antt =====
-- `AccessReviewManager` of sentinel/access_review.py. A folder is a list of its campaign files in the
-- order of their names, each with what reading it gives. A user of the evidence is a dictionary whose
-- fields, where they are there, are texts and Booleans. Ids with a slash, which lead out of the folder,
-- are left out.
use soc2_sentinel.Base.{
  ℕ, ◌+◌, String, ◌<>◌, Bool, true, false, List, [], ◌∷◌, Option, none, some, str_eq, le_text, ltb,
  show_nat, if◌then◌else◌,
}
use soc2_sentinel.Python.{Py, ok, raise, ◌>>=◌, is_given, or_text, get_or}
use soc2_sentinel.AccessReview.Campaign.{
  pending, active, Entitlement, AccessReviewItem, AccessCampaign,
}
use soc2_sentinel.AccessReview.Stored.{CampaignData, campaign_to_dict, load_campaign}

abbrev pub CampaignFiles : Type 0
CampaignFiles = List (String × Py CampaignData)

-- The folders by their paths.
abbrev pub CampaignStore : Type 0
CampaignStore = String → CampaignFiles

-- `_get_storage_dir`, below the base root.
unfoldable pub storage_dir : String → String
storage_dir tenant_id =
    if str_eq tenant_id "default"
    then "access_reviews"
    else "tenants/" <> (tenant_id <> "/access_reviews")

-- A file that cannot be read, or is no campaign, is logged and left out.
unfoldable pub load_files : CampaignFiles → List AccessCampaign
unfolding load_campaign
load_files [] = []
load_files ((_, content) ∷ files) =
    let rest = load_files files in
    elim (content >>= load_campaign) [ ok campaign ↦ campaign ∷ rest | raise _ ↦ rest ]

unfoldable pub list_campaigns : CampaignStore → String → List AccessCampaign
unfolding load_files storage_dir
list_campaigns store tenant_id = load_files (store (storage_dir tenant_id))

abbrev pub campaign_file : String → String
campaign_file campaign_id = "campaign_" <> (campaign_id <> ".json")

-- The file is replaced, or takes its place in the order.
unfoldable pub write_campaign : String → CampaignData → CampaignFiles → CampaignFiles
write_campaign name content [] = (name, ok content) ∷ []
write_campaign name content ((other, old) ∷ files) =
    let rest = write_campaign name content files in
    if str_eq other name
    then (name, ok content) ∷ files
    else if le_text name other
    then (name, ok content) ∷ (other, old) ∷ files
    else (other, old) ∷ rest

unfoldable pub save_campaign : AccessCampaign → String → CampaignStore → CampaignStore
unfolding campaign_to_dict write_campaign storage_dir
save_campaign campaign tenant_id store =
    let folder = storage_dir tenant_id in
    let written =
      write_campaign (campaign_file campaign.campaign_id) (campaign_to_dict campaign)
        (store folder) in
    λ other. if str_eq other folder then written else store other

unfoldable pub find_campaign : String → List AccessCampaign → Option AccessCampaign
find_campaign campaign_id [] = none
find_campaign campaign_id (c ∷ campaigns) =
    if str_eq c.campaign_id campaign_id then some c else find_campaign campaign_id campaigns

unfoldable pub get_campaign : String → String → CampaignStore → Option AccessCampaign
unfolding find_campaign list_campaigns
get_campaign campaign_id tenant_id store =
    find_campaign campaign_id (list_campaigns store tenant_id)

pub record User : Type 0 where
  pub user_name : Option String
  pub name : Option String
  pub email : Option String
  pub role : Option String
  pub policy : Option String
  pub arn : Option String
  pub resource : Option String
  pub is_admin : Option Bool
  pub mfa_active : Option Bool
  pub last_active : Option String
  pub password_last_used : Option String

-- The fields that are read of an IAM report: its users, those of `raw_data` where it has that
-- dictionary, and the provider.
pub record IamEvidence : Type 0 where
  pub users : List User
  pub raw_users : List User
  pub provider : Option String

-- `a or b` of two texts that may be missing
abbrev pub or_given : Option String → Option String → Option String
or_given text rest = if is_given text then text else rest

-- `f"{n:03d}"`
abbrev pub three_digits : ℕ → String
three_digits n =
    if ltb n 10 then "00" <> show_nat n else if ltb n 100 then "0" <> show_nat n else show_nat n

unfoldable pub entitlement_of : String → ℕ → User → Entitlement
unfolding show_nat
entitlement_of provider idx u =
    let uname = or_text u.user_name (or_text u.name ("user-" <> show_nat (idx + 1))) in
    record {
      identity_name = uname;
      identity_email = or_text u.email (uname <> "@sentinel.local");
      provider = provider;
      role_or_policy = or_text u.role (or_text u.policy "ReadWriteAccess");
      resource = or_text u.arn (or_text u.resource "global");
      is_admin = get_or u.is_admin false;
      mfa_enabled = get_or u.mfa_active true;
      last_login_date = or_given u.last_active u.password_last_used;
    }

-- The loop over the users, from the one with an index.
unfoldable pub items_of : String → String → ℕ → List User → List AccessReviewItem
unfolding entitlement_of show_nat
items_of campaign_id provider idx [] = []
items_of campaign_id provider idx (u ∷ users) =
    record {
      item_id = campaign_id <> ("-item-" <> three_digits (idx + 1));
      entitlement = entitlement_of provider idx u;
      decision = pending;
      reviewer_notes = "";
      reviewed_by = none;
      reviewed_at = none;
    }
    ∷ items_of campaign_id provider (idx + 1) users

abbrev pub users_of : IamEvidence → List User
users_of evidence = elim evidence.users [ [] ↦ evidence.raw_users | u ∷ users ↦ u ∷ users ]

-- `create_campaign_from_evidence` at a time: the campaign, and the store it is saved in.
unfoldable pub create_campaign :
    String
    → String
    → String
    → String
    → String
    → IamEvidence
    → String
    → CampaignStore
    → AccessCampaign × CampaignStore
unfolding items_of save_campaign
create_campaign now campaign_id title period due_date evidence tenant_id store =
    let campaign : AccessCampaign = record {
      campaign_id = campaign_id;
      title = title;
      period = period;
      created_at = now;
      due_date = due_date;
      status = active;
      completed_at = none;
      signatory = none;
      sign_off_hash = none;
      sign_off_scheme = none;
      items = items_of campaign_id (get_or evidence.provider "aws") 0 (users_of evidence);
    } in
    (campaign, save_campaign campaign tenant_id store)
