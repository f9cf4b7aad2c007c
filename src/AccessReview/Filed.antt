-- ===== src/AccessReview/Filed.antt =====
-- What saving a campaign does to the campaigns that are read back.
use soc2_sentinel.Base.{
  String, ◌<>◌, ◌≡◌, refl, ap, sym, ◌∙◌, subst, true, false, List, [], ◌∷◌, map, some, inl, inr,
  str_eq, str_eq_iff, le_text, arith, Bool-cases, if-swap, if◌then◌else◌,
}
use text.Mathlib.TextLemmas.{append_cancel_left, append_cancel_right}
use soc2_sentinel.Python.{Py, Exception, ok, raise, ok-injective, Py-cases, ◌>>=◌}
use soc2_sentinel.AccessReview.{
  ReviewDecision, pending, maintain, revoke, modify, CampaignStatus, active, completed, archived,
  AccessReviewItem, AccessCampaign, value_of, status_value, decision_of, status_of, item_to_dict,
  campaign_to_dict, CampaignData, load_item, load_review_items, load_campaign, CampaignFiles,
  CampaignStore, storage_dir, load_files, list_campaigns, campaign_file, write_campaign,
  save_campaign, find_campaign, get_campaign,
}

decision_of-value_of : (d : ReviewDecision) → decision_of (value_of d) ≡ ok d
unfolding decision_of
decision_of-value_of pending = refl
decision_of-value_of maintain = refl
decision_of-value_of revoke = refl
decision_of-value_of modify = refl

status_of-status_value : (s : CampaignStatus) → status_of (status_value s) ≡ ok s
unfolding status_of
status_of-status_value active = refl
status_of-status_value completed = refl
status_of-status_value archived = refl

load_item-to_dict : (item : AccessReviewItem) → load_item (item_to_dict item) ≡ ok item
unfolding load_item item_to_dict
load_item-to_dict item = rw (decision_of-value_of item.decision) refl

load_review_items-to_dict :
    (items : List AccessReviewItem) → load_review_items (map item_to_dict items) ≡ ok items
unfolding load_review_items
load_review_items-to_dict [] = refl
load_review_items-to_dict (item ∷ items) =
    rw (load_item-to_dict item, load_review_items-to_dict items) refl

-- What is written of a campaign is read back as that campaign.
pub load_campaign-to_dict : (c : AccessCampaign) → load_campaign (campaign_to_dict c) ≡ ok c
unfolding load_campaign campaign_to_dict
load_campaign-to_dict c =
    rw (load_review_items-to_dict c.items, status_of-status_value c.status) refl

campaign_file-injective : (s t : String) → campaign_file s ≡ campaign_file t → s ≡ t
campaign_file-injective s t h =
    append_cancel_right s t ".json" (append_cancel_left "campaign_" (s <> ".json") (t <> ".json") h)

-- Every campaign in the folder stands in the file of its id.
abbrev pub IsFiled : CampaignFiles → Type 0
IsFiled [] = Unit
IsFiled ((name, content) ∷ files) =
    ((c : AccessCampaign) → (content >>= load_campaign) ≡ ok c → name ≡ campaign_file c.campaign_id)
    × IsFiled files

load_files-loaded :
    (name : String) (content : Py CampaignData) (files : CampaignFiles) (d : AccessCampaign)
    → (content >>= load_campaign) ≡ ok d
    → load_files ((name, content) ∷ files) ≡ d ∷ load_files files
unfolding load_files
load_files-loaded name content files d e = rw (e, load_files) refl

load_files-skipped :
    (name : String) (content : Py CampaignData) (files : CampaignFiles) (x : Exception)
    → (content >>= load_campaign) ≡ raise x
    → load_files ((name, content) ∷ files) ≡ load_files files
unfolding load_files
load_files-skipped name content files x e = rw (e, load_files) refl

module _ (c : AccessCampaign) where
  abbrev file : String
  file = campaign_file c.campaign_id

  load_files-new :
      (files : CampaignFiles)
      → load_files ((file, ok (campaign_to_dict c)) ∷ files) ≡ c ∷ load_files files
  load_files-new files = load_files-loaded file _ files c (load_campaign-to_dict c)

  -- A campaign in the file is not found under another id.
  find_campaign-replaced :
      (campaign_id name : String) (content : Py CampaignData) (files : CampaignFiles)
      → ((d : AccessCampaign)
          → (content >>= load_campaign) ≡ ok d
          → name ≡ campaign_file d.campaign_id)
      → name ≡ file
      → str_eq c.campaign_id campaign_id ≡ false
      → find_campaign campaign_id (load_files files)
        ≡ find_campaign campaign_id (load_files ((name, content) ∷ files))
  unfolding find_campaign
  find_campaign-replaced campaign_id name content files filed here h =
      elim (Py-cases (content >>= load_campaign)) [
        | inr (x, e) ↦
            ap (find_campaign campaign_id) (sym (load_files-skipped name content files x e))
        | inl (d, e) ↦
            let same = campaign_file-injective _ _ (sym here ∙ filed d e) in
            let other = subst (λ s. str_eq s campaign_id ≡ false) same h in
            rw (load_files-loaded name content files d e) (rw (other, find_campaign) refl)
      ]

  -- Two campaigns in files of different names do not both have the id.
  other_id :
      (campaign_id name : String) (d : AccessCampaign)
      → str_eq name file ≡ false
      → name ≡ campaign_file d.campaign_id
      → str_eq c.campaign_id campaign_id ≡ true
      → str_eq d.campaign_id campaign_id ≡ false
  other_id campaign_id name d apart filed h = elim (Bool-cases (str_eq d.campaign_id campaign_id)) [
    | inr e ↦ e
    | inl e ↦
        let same : d.campaign_id ≡ c.campaign_id =
          (str_eq_iff _ _).0 e ∙ sym ((str_eq_iff _ _).0 h) in
        absurd (ground (arith, apart, (str_eq_iff name file).1 (filed ∙ ap campaign_file same)))
  ]

  -- After a campaign is written, its id is found with it, and every other id as before.
  find_campaign-write_campaign :
      (campaign_id : String) (files : CampaignFiles)
      → IsFiled files
      → find_campaign campaign_id (load_files (write_campaign file (campaign_to_dict c) files)) ≡ (
          if str_eq c.campaign_id campaign_id
          then some c
          else find_campaign campaign_id (load_files files))
  unfolding find_campaign write_campaign
  find_campaign-write_campaign campaign_id [] filed =
      ap (find_campaign campaign_id) (load_files-new [])
  find_campaign-write_campaign campaign_id ((other, old) ∷ files) filed =
      elim (Bool-cases (str_eq other file)) [
        | inl same ↦
            rw (same, write_campaign)
              (ap (find_campaign campaign_id) (load_files-new files)
                ∙ elim (Bool-cases (str_eq c.campaign_id campaign_id)) [
                  | inl e ↦ rw e refl
                  | inr e ↦ rw e (
                      find_campaign-replaced campaign_id other old files filed.0
                        ((str_eq_iff other file).0 same) e)
                ])
        | inr apart ↦
            rw (apart, write_campaign)
              (elim (Bool-cases (le_text file other)) [
                | inl before ↦
                    rw (before, write_campaign)
                      (ap (find_campaign campaign_id) (load_files-new ((other, old) ∷ files)))
                | inr after ↦
                    let ih = find_campaign-write_campaign campaign_id files filed.1 in
                    rw (after, write_campaign)
                      (elim (Py-cases (old >>= load_campaign)) [
                        | inr (x, e) ↦
                            rw
                              (
                                load_files-skipped other old _ x e,
                                load_files-skipped other old files x e,
                              )
                              ih
                        | inl (d, e) ↦
                            rw
                              (
                                load_files-loaded other old _ d e,
                                load_files-loaded other old files d e,
                                ih,
                              )
                              (if-swap _ _ _ _ _ (other_id campaign_id other d apart (filed.0 d e)))
                      ])
              ])
      ]

  own :
      (d : AccessCampaign)
      → (ok (campaign_to_dict c) >>= load_campaign) ≡ ok d
      → file ≡ campaign_file d.campaign_id
  own d h =
      ap (λ (e : AccessCampaign). campaign_file e.campaign_id)
        (ok-injective c d (sym (load_campaign-to_dict c) ∙ h))

  write_campaign-IsFiled :
      (files : CampaignFiles)
      → IsFiled files
      → IsFiled (write_campaign file (campaign_to_dict c) files)
  unfolding write_campaign
  write_campaign-IsFiled [] filed = (own, tt)
  write_campaign-IsFiled ((other, old) ∷ files) filed = elim (Bool-cases (str_eq other file)) [
    | inl same ↦ rw (same, write_campaign) (own, filed.1)
    | inr apart ↦
        rw (apart, write_campaign)
          (elim (Bool-cases (le_text file other)) [
            | inl before ↦ rw (before, write_campaign) (own, filed)
            | inr after ↦ rw (after, write_campaign) (filed.0, write_campaign-IsFiled files filed.1)
          ])
  ]

-- In a folder where every campaign stands in the file of its id, saving a campaign keeps this so;
-- afterwards its id is found with it, and every other id as before.
pub save_campaign-get_campaign :
    (c : AccessCampaign) (tenant_id : String) (store : CampaignStore)
    → IsFiled (store (storage_dir tenant_id))
    → IsFiled (save_campaign c tenant_id store (storage_dir tenant_id))
      × ((campaign_id : String)
          → get_campaign campaign_id tenant_id (save_campaign c tenant_id store) ≡ (
              if str_eq c.campaign_id campaign_id
              then some c
              else get_campaign campaign_id tenant_id store))
unfolding save_campaign get_campaign list_campaigns
save_campaign-get_campaign c tenant_id store filed =
    let here = (str_eq_iff (storage_dir tenant_id) (storage_dir tenant_id)).1 refl in
    (
      rw here (write_campaign-IsFiled c _ filed),
      λ campaign_id. rw here (find_campaign-write_campaign c campaign_id _ filed),
    )
