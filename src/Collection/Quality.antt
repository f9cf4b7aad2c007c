-- ===== src/Collection/Quality.antt =====
-- How the quality of a collection limits the status that is reported.
use soc2_sentinel.Base.{
  ℕ, ◌≡◌, ◌≢◌, ◌&&◌, [], ◌∷◌, arith, contains, if◌then◌else◌, ◌⊎◌, ap, sym, ◌∙◌, Bool-cases, inl,
  inr,
}
use soc2_sentinel.Python.{
  bool, ok, Py-cases, Val, null, str, list, Items, item, Fields, get, set, get-set, is_text, Floats,
}
use soc2_sentinel.Collection.{
  collection_quality, finalize_snapshot, errors_of, downgrade, apply_collection_metadata,
  normalised,
}

-- The status that a payload keeps: none but red after a failed collection, and no green after a
-- partial one.
abbrev pub limited : {V : Type 0} → Val V → Val V → Val V
limited quality status =
    if is_text quality "failed"
    then str "red"
    else if is_text quality "partial" && is_text status "green"
    then str "yellow"
    else status

module _ (F : Floats) where
  downgrade-status :
      (quality : Val F.Float) (payload : Fields F.Float)
      → get (downgrade F quality payload) "status" null
        ≡ limited quality (get payload "status" null)
  unfolding downgrade
  downgrade-status quality payload = ground (
    arith,
    get-set payload "status" "status" (str "red") null,
    get-set payload "status" "status" (str "yellow") null,
  )

  downgrade-quality :
      (quality : Val F.Float) (payload : Fields F.Float)
      → get (downgrade F quality payload) "collection_quality" null
        ≡ get payload "collection_quality" null
  unfolding downgrade
  downgrade-quality quality payload = ground (
    arith,
    get-set payload "status" "collection_quality" (str "red") null,
    get-set payload "status" "collection_quality" (str "yellow") null,
  )

  -- `apply_collection_metadata` leaves the snapshot's quality in the payload, and the payload's own
  -- status limited by it: red if the collection failed, and yellow in place of green if it is partial.
  pub apply_collection_metadata-status :
      (payload snap payload' : Fields F.Float)
      → apply_collection_metadata F payload snap ≡ ok payload'
      → let quality = get snap "collection_quality" (str "complete") in
        (get payload' "status" null ≡ limited quality (get payload "status" null))
        × (get payload' "collection_quality" null ≡ quality)
  unfolding apply_collection_metadata errors_of normalised
  apply_collection_metadata-status payload snap payload' h =
      let quality = get snap "collection_quality" (str "complete") in
      elim (Py-cases (errors_of F snap)) [
        | inl (es, e) ↦
            let tagged = set payload "errors" (list (normalised F es)) in
            (
              ground (
                arith,
                e,
                h,
                downgrade-status quality (set tagged "collection_quality" quality),
                get-set tagged "collection_quality" "status" quality null,
                get-set payload "errors" "status" (list (normalised F es)) null,
              ),
              ground (
                arith,
                e,
                h,
                downgrade-quality quality (set tagged "collection_quality" quality),
                get-set tagged "collection_quality" "collection_quality" quality null,
              ),
            )
        | inr (x, e) ↦ absurd (ground arith)
      ]

  pub finalize_snapshot-quality :
      (data' : Fields F.Float) (errors : Items F.Float) (attempted succeeded : ℕ)
      (default : Val F.Float)
      → get (finalize_snapshot F data' errors attempted succeeded) "collection_quality" default
        ≡ str (collection_quality F errors attempted succeeded)
  unfolding finalize_snapshot
  finalize_snapshot-quality data' errors attempted succeeded default =
      let quality = collection_quality F errors attempted succeeded in
      let with_errors = set data' "errors" (list errors) in
      ground (
        arith,
        get-set with_errors "collection_quality" "collection_quality" (str quality) default,
        get-set (set with_errors "collection_quality" (str quality)) "partial" "collection_quality"
            (bool (contains ("partial" ∷ "failed" ∷ []) quality)) default,
      )

  pub finalize_snapshot-errors :
      (data' : Fields F.Float) (errors : Items F.Float) (attempted succeeded : ℕ)
      (default : Val F.Float)
      → get (finalize_snapshot F data' errors attempted succeeded) "errors" default ≡ list errors
  unfolding finalize_snapshot
  finalize_snapshot-errors data' errors attempted succeeded default =
      let quality = collection_quality F errors attempted succeeded in
      let with_errors = set data' "errors" (list errors) in
      ground (
        arith,
        get-set data' "errors" "errors" (list errors) default,
        get-set with_errors "collection_quality" "errors" (str quality) default,
        get-set (set with_errors "collection_quality" (str quality)) "partial" "errors"
            (bool (contains ("partial" ∷ "failed" ∷ []) quality)) default,
      )

  collection_quality-faulty :
      (e : Val F.Float) (es : Items F.Float) (attempted succeeded : ℕ)
      → let quality = collection_quality F (item e es) attempted succeeded in
        (quality ≡ "failed") ⊎ (quality ≡ "partial")
  unfolding collection_quality
  collection_quality-faulty e es attempted succeeded = ground arith

  limited-not_green :
      (status : Val F.Float)
      → (limited (str "failed") status ≢ str "green")
        × (limited (str "partial") status ≢ str "green")
  limited-not_green status = (
    λ g. cc (ap (λ v. is_text v "green") g),
    λ g. elim (Bool-cases (is_text status "green")) [
      | inl b ↦ ground (arith, b, ap (λ v. is_text v "green") g)
      | inr b ↦ ground (arith, b, ap (λ v. is_text v "green") g)
    ],
  )

  -- A payload that takes up a snapshot with an error in it is neither green nor marked complete,
  -- whatever status it had and however many checks were attempted and succeeded.
  pub finalize_snapshot-not_green :
      (payload data' payload' : Fields F.Float) (e : Val F.Float) (es : Items F.Float)
      (attempted succeeded : ℕ)
      → apply_collection_metadata F payload
          (finalize_snapshot F data' (item e es) attempted succeeded)
        ≡ ok payload'
      → (get payload' "status" null ≢ str "green")
        × (get payload' "collection_quality" null ≢ str "complete")
  finalize_snapshot-not_green payload data' payload' e es attempted succeeded h =
      let snap = finalize_snapshot F data' (item e es) attempted succeeded in
      let (s, q) = apply_collection_metadata-status payload snap payload' h in
      let k = finalize_snapshot-quality data' (item e es) attempted succeeded (str "complete") in
      let (failed, partial) = limited-not_green (get payload "status" null) in
      elim (collection_quality-faulty e es attempted succeeded) [
        | inl c ↦ (
          λ g. failed cc,
          λ g. cc (ap (λ v. is_text v "complete") (sym (ap str c) ∙ sym k ∙ sym q ∙ g)),
        )
        | inr c ↦ (
          λ g. partial cc,
          λ g. cc (ap (λ v. is_text v "complete") (sym (ap str c) ∙ sym k ∙ sym q ∙ g)),
        )
      ]
