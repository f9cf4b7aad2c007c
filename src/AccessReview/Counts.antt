-- ===== src/AccessReview/Counts.antt =====
-- The counts of a campaign, and when it can be signed.
use soc2_sentinel.Base.{
  ◌+◌, String, ◌≡◌, refl, true, false, List, [], ◌∷◌, length, keep, Option, some, arith,
}
use soc2_sentinel.Python.{ok, raise, value_error}
use soc2_sentinel.AccessReview.{
  completed, AccessReviewItem, AccessCampaign, is_pending, is_maintain, is_revoke, is_modify,
  total_items, pending_count, maintained_count, revoked_count, modified_count, is_complete,
  sign_off, sign_off_payload, closed, complete_and_sign,
}

count_decisions :
    (items : List AccessReviewItem)
    → length (keep (λ i. is_pending i.decision) items)
        + length (keep (λ i. is_maintain i.decision) items)
        + length (keep (λ i. is_revoke i.decision) items)
        + length (keep (λ i. is_modify i.decision) items)
      ≡ length items
count_decisions [] = omega arith
count_decisions (item ∷ items) = ground (arith, count_decisions items)

-- Every item of a campaign is counted once, as pending, maintained, revoked or modified.
pub counts-total :
    (c : AccessCampaign)
    → pending_count c + maintained_count c + revoked_count c + modified_count c ≡ total_items c
unfolding pending_count maintained_count revoked_count modified_count total_items
counts-total c = count_decisions c.items

module _ (sha256 : String → String) (hmac_sha256 : String → String → String) where
  -- A signed campaign: completed, with the signatory's name and the digest of its own payload.
  pub record IsSigned (name : String) (secret : Option String) (c : AccessCampaign) : Type 0 where
    pub status : c.status ≡ completed
    pub signatory : c.signatory ≡ some name
    pub hash : c.sign_off_hash ≡ some (sign_off sha256 hmac_sha256 secret (sign_off_payload c)).1
    pub decided : maintained_count c + revoked_count c + modified_count c ≡ total_items c

  -- A campaign with an item and none pending can be signed: it is then completed, keeps its items, all
  -- of which are decided, and carries the digest of its own payload. Any other campaign raises.
  pub complete_and_sign-cases :
      (now name : String) (secret : Option String) (c : AccessCampaign)
      → (is_complete c ≡ true
          → (c' : AccessCampaign) × (complete_and_sign sha256 hmac_sha256 now name secret c ≡ ok c')
            × (c'.items ≡ c.items)
            × IsSigned name secret c')
        × (is_complete c ≡ false
            → complete_and_sign sha256 hmac_sha256 now name secret c ≡ raise value_error)
  unfolding complete_and_sign is_complete sign_off_payload total_items pending_count
      maintained_count revoked_count modified_count
  complete_and_sign-cases now name secret c = (
    λ h.
        let final = closed sha256 hmac_sha256 now name c in
        let signed = sign_off sha256 hmac_sha256 secret (sign_off_payload final) in
        let c' : AccessCampaign = record final {
          sign_off_scheme = some signed.0;
          sign_off_hash = some signed.1;
        } in
        (
          c',
          ground (arith, h),
          refl,
          record {
            status = refl;
            signatory = refl;
            hash = refl;
            decided = ground (arith, h, count_decisions c.items);
          },
        ),
    λ h. ground (arith, h),
  )
