-- ===== src/AccessReview/Tests.antt =====
-- The theorems about sentinel/access_review.py for a campaign of one item.
use soc2_sentinel.Base.{
  ◌+◌, String, ◌<>◌, ◌≡◌, refl, true, false, str_eq, if◌then◌else◌, [], ◌∷◌, none, some, map,
}
use soc2_sentinel.AccessReview.{
  pending, maintain, revoke, active, completed, AccessReviewItem, AccessCampaign, pending_count,
  maintained_count, revoked_count, modified_count, total_items, record_decision, decide_items,
  decide, complete_and_sign, IamEvidence, User, CampaignStore, create_campaign, get_campaign,
  save_campaign, storage_dir,
}
use soc2_sentinel.Python.{raise, value_error}
use soc2_sentinel.AccessReview.Filed.{IsFiled, save_campaign-get_campaign}
use soc2_sentinel.AccessReview.Numbered.{create_campaign-decided}
use soc2_sentinel.AccessReview.Created.{
  Matches, create_campaign-Reaches, create_campaign_unsignable,
}
use soc2_sentinel.AccessReview.Counts.{counts-total}
use soc2_sentinel.AccessReview.Lifecycle.{entitlements, IsConsistent, decided, start, next}

abbrev alice : AccessReviewItem
alice = record {
  item_id = "q3-item-001";
  entitlement = record {
    identity_name = "alice";
    identity_email = "alice@sentinel.local";
    provider = "aws";
    role_or_policy = "Admin";
    resource = "global";
    is_admin = true;
    mfa_enabled = true;
    last_login_date = none;
  };
  decision = pending;
  reviewer_notes = "";
  reviewed_by = none;
  reviewed_at = none;
}

abbrev campaign : AccessCampaign
campaign = record {
  campaign_id = "q3";
  title = "Review";
  period = "2026-Q3";
  created_at = "2026-07-01";
  due_date = "2026-09-30";
  status = active;
  completed_at = none;
  signatory = none;
  sign_off_hash = none;
  sign_off_scheme = none;
  items = alice ∷ [];
}

abbrev reviewed : AccessCampaign
reviewed = record campaign { items = record_decision "2026-08-01" revoke "bob" "" alice ∷ [] }

abbrev digest : String → String
digest s = s <> "#"

abbrev keyed : String → String → String
keyed key s = key <> s

counts-total_example :
    pending_count reviewed
      + maintained_count reviewed
      + revoked_count reviewed
      + modified_count reviewed
    ≡ total_items reviewed
counts-total_example = counts-total reviewed

alice-decided : decide "2026-08-01" "q3-item-001" revoke "bob" "" campaign ≡ some reviewed
unfolding decide decide_items
alice-decided = refl

abbrev closed_campaign : AccessCampaign
closed_campaign = record reviewed { status = completed; sign_off_hash = some "#" }

abbrev reopened : AccessCampaign
reopened = record closed_campaign {
  items =
      record_decision "2026-08-03" pending "eve" ""
        (record_decision "2026-08-01" revoke "bob" "" alice)
      ∷ [];
}

alice-reopened : decide "2026-08-03" "q3-item-001" pending "eve" "" closed_campaign ≡ some reopened
unfolding decide decide_items record_decision
alice-reopened = refl

abbrev nobody : IamEvidence
nobody = record { users = []; raw_users = []; provider = none }

abbrev carol : User
carol = record {
  user_name = none;
  name = some "carol";
  email = none;
  role = none;
  policy = some "Billing";
  arn = none;
  resource = none;
  is_admin = none;
  mfa_active = some false;
  last_active = some "";
  password_last_used = some "2026-06-30";
}

abbrev iam : IamEvidence
iam = record { users = []; raw_users = carol ∷ []; provider = some "gcp" }

abbrev no_campaigns : CampaignStore
no_campaigns folder = []

abbrev of_carol : AccessCampaign
of_carol = record campaign {
  campaign_id = "q4";
  items =
      record {
        item_id = "q4-item-001";
        entitlement = record {
          identity_name = "carol";
          identity_email = "carol@sentinel.local";
          provider = "gcp";
          role_or_policy = "Billing";
          resource = "global";
          is_admin = false;
          mfa_enabled = false;
          last_login_date = some "2026-06-30";
        };
        decision = pending;
        reviewer_notes = "";
        reviewed_by = none;
        reviewed_at = none;
      }
      ∷ [];
}

carol-created :
    (create_campaign "2026-07-01" "q4" "Review" "2026-Q3" "2026-09-30" iam "acme" no_campaigns).0
    ≡ of_carol
unfolding create_campaign
carol-created = refl

carol-read :
    get_campaign "q4" "acme"
      (create_campaign "2026-07-01" "q4" "Review" "2026-Q3" "2026-09-30" iam "acme" no_campaigns).1
    ≡ some of_carol
unfolding create_campaign get_campaign
carol-read = refl

save_campaign-get_campaign_example :
    IsFiled (save_campaign reviewed "default" no_campaigns (storage_dir "default"))
    × ((campaign_id : String)
        → get_campaign campaign_id "default" (save_campaign reviewed "default" no_campaigns) ≡ (
            if str_eq "q3" campaign_id
            then some reviewed
            else get_campaign campaign_id "default" no_campaigns))
save_campaign-get_campaign_example = save_campaign-get_campaign reviewed "default" no_campaigns tt

abbrev revoked_carol : AccessCampaign
revoked_carol = record of_carol {
  items = map (record_decision "2026-08-01" revoke "bob" "") of_carol.items;
}

carol-decided :
    decide "2026-08-01" "q4-item-001" revoke "bob" ""
      (create_campaign "2026-07-01" "q4" "Review" "2026-Q3" "2026-09-30" iam "acme" no_campaigns).0
    ≡ some revoked_carol
unfolding create_campaign decide decide_items
carol-decided = refl

create_campaign-Reaches_example :
    IsConsistent revoked_carol × Matches "gcp" 0 (carol ∷ []) (entitlements revoked_carol.items)
create_campaign-Reaches_example =
    create_campaign-Reaches digest keyed "2026-07-01" "q4" "Review" "2026-Q3" "2026-09-30" iam
      "acme" no_campaigns
      (next start (decided "2026-08-01" "q4-item-001" revoke "bob" "" carol-decided))

create_campaign_unsignable_example :
    complete_and_sign digest keyed "2026-08-02" "bob" none (record campaign { items = [] })
    ≡ raise value_error
unfolding create_campaign
create_campaign_unsignable_example =
    create_campaign_unsignable digest keyed "2026-07-01" "q3" "Review" "2026-Q3" "2026-09-30" nobody
      "acme" no_campaigns "2026-08-02" "bob" none refl start

abbrev both : IamEvidence
both = record {
  users = carol ∷ record carol { name = some "dave" } ∷ [];
  raw_users = [];
  provider = none;
}

abbrev of_both : AccessCampaign
of_both =
    (create_campaign "2026-07-01" "q4" "Review" "2026-Q3" "2026-09-30" both "acme" no_campaigns).0

abbrev fresh_item : String → String → AccessReviewItem
fresh_item item_id name = record {
  item_id = item_id;
  entitlement = record {
    identity_name = name;
    identity_email = name <> "@sentinel.local";
    provider = "aws";
    role_or_policy = "Billing";
    resource = "global";
    is_admin = false;
    mfa_enabled = false;
    last_login_date = some "2026-06-30";
  };
  decision = pending;
  reviewer_notes = "";
  reviewed_by = none;
  reviewed_at = none;
}

both-items : of_both.items ≡ fresh_item "q4-item-001" "carol" ∷ fresh_item "q4-item-002" "dave" ∷ []
unfolding create_campaign
both-items = refl

-- The second of two items.
create_campaign-decided_example :
    decide "2026-08-01" "q4-item-002" maintain "bob" "" of_both
    ≡ some (record of_both {
      items =
          fresh_item "q4-item-001" "carol"
          ∷ record_decision "2026-08-01" maintain "bob" "" (fresh_item "q4-item-002" "dave")
          ∷ [];
    })
create_campaign-decided_example =
    create_campaign-decided digest keyed "2026-07-01" "q4" "Review" "2026-Q3" "2026-09-30" both
      "acme" no_campaigns "2026-08-01" maintain "bob" "" (fresh_item "q4-item-001" "carol" ∷ []) []
      (fresh_item "q4-item-002" "dave") start both-items
