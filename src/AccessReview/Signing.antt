-- ===== src/AccessReview/Signing.antt =====
-- `complete_and_sign` of sentinel/access_review.py. The two digests are parameters.
use soc2_sentinel.Base.{
  String, ◌<>◌, List, [], ◌∷◌, map, join, le_text, str_eq, Option, none, some, if◌then◌else◌,
}
use soc2_sentinel.Python.{Py, ok, raise, value_error}
use soc2_sentinel.AccessReview.Campaign.{
  ReviewDecision, pending, maintain, revoke, modify, completed, AccessReviewItem, AccessCampaign,
  is_complete,
}

abbrev pub value_of : ReviewDecision → String
value_of pending = "PENDING"
value_of maintain = "MAINTAIN"
value_of revoke = "REVOKE"
value_of modify = "MODIFY"

-- An optional text inside another text.
abbrev pub text_of : Option String → String
text_of none = "None"
text_of (some s) = s

abbrev insert_item : AccessReviewItem → List AccessReviewItem → List AccessReviewItem
insert_item item [] = item ∷ []
insert_item item (i ∷ items) =
    let rest = insert_item item items in
    if le_text item.item_id i.item_id then item ∷ i ∷ items else i ∷ rest

-- `sorted(self.items, key=lambda x: x.item_id)`, which is stable.
unfoldable pub sorted_items : List AccessReviewItem → List AccessReviewItem
sorted_items [] = []
sorted_items (item ∷ items) = insert_item item (sorted_items items)

abbrev pub summary_line : AccessReviewItem → String
summary_line i =
    i.item_id
    <> (":"
        <> (i.entitlement.identity_email
            <> (":" <> (value_of i.decision <> (":" <> text_of i.reviewed_by)))))

unfoldable pub sign_off_payload : AccessCampaign → String
unfolding sorted_items join
sign_off_payload campaign =
    campaign.campaign_id
    <> ("|"
        <> (campaign.period
            <> ("|"
                <> (text_of campaign.completed_at
                    <> ("|" <> (text_of campaign.signatory <> "|"))))))
    <> join ";" (map summary_line (sorted_items campaign.items))

module _ (sha256 : String → String) (hmac_sha256 : String → String → String) where
  -- The scheme and the digest; an empty secret counts as none.
  abbrev pub sign_off : Option String → String → String × String
  sign_off none payload = ("SHA256_DIGEST", sha256 payload)
  sign_off (some secret) payload =
      if str_eq secret ""
      then ("SHA256_DIGEST", sha256 payload)
      else ("HMAC_SHA256", hmac_sha256 secret payload)

  abbrev pub closed : String → String → AccessCampaign → AccessCampaign
  closed now signatory_name campaign = record campaign {
    status = completed;
    completed_at = some now;
    signatory = some signatory_name;
  }

  -- The campaign afterwards, whose hash is also what the method returns.
  unfoldable pub complete_and_sign :
      String → String → Option String → AccessCampaign → Py AccessCampaign
  unfolding is_complete sign_off_payload
  complete_and_sign now signatory_name signing_secret campaign =
      let final = closed now signatory_name campaign in
      let signed = sign_off signing_secret (sign_off_payload final) in
      if is_complete campaign
      then ok (record final { sign_off_scheme = some signed.0; sign_off_hash = some signed.1 })
      else raise value_error
