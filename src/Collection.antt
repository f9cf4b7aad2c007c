-- ===== src/Collection.antt =====
-- sentinel/providers/_snapshot.py and the part of sentinel/collectors/_helpers.py that maps a
-- provider's snapshot into the evidence payload.
pub mod Quality
pub mod Merge
pub mod Failure
pub mod Export
pub mod Injected
mod Tests
use soc2_sentinel.Base.{
  ℕ, suc, String, ◌<>◌, Bool, true, false, not, ◌&&◌, ◌||◌, List, [], ◌∷◌, ◌==◌, str_eq, contains,
  if◌then◌else◌,
}
use soc2_sentinel.Base.Int.{ℤ, ◌+ℤ◌}
use soc2_sentinel.Python.{
  Py, ok, raise, type_error, ◌>>=◌, Val, null, bool, int, float, str, list, dict, Items, nil, item,
  Fields, end, field, has, get, set, extend, as_list, is_text, is_null, Floats, truthy, bool_int,
}

abbrev pub is_nil : {V : Type 0} → Items V → Bool
is_nil nil = true
is_nil (item _ _) = false

module _ (F : Floats) where
  open F use {Float}

  -- `collection_quality`, where only the emptiness of the errors matters.
  unfoldable pub collection_quality : Items Float → ℕ → ℕ → String
  collection_quality errors attempted succeeded =
      if attempted == 0 || not (is_nil errors) && succeeded == 0
      then "failed"
      else if not (is_nil errors)
      then "partial"
      else "complete"

  unfoldable pub finalize_snapshot : Fields Float → Items Float → ℕ → ℕ → Fields Float
  unfolding collection_quality contains
  finalize_snapshot data' errors attempted succeeded =
      let quality = collection_quality errors attempted succeeded in
      set (set (set data' "errors" (list errors)) "collection_quality" (str quality)) "partial"
        (bool (contains ("partial" ∷ "failed" ∷ []) quality))

  -- `snap.get("errors") or []`, for the lists that the providers put there.
  unfoldable pub errors_of : Fields Float → Py (Items Float)
  errors_of snap =
      let errors = get snap "errors" null in if truthy F errors then as_list errors else ok nil

  -- `merged[key] + value` of two lists or two integers (a truth value is an integer), and else the
  -- value that is there.
  unfoldable pub combine : Val Float → Val Float → Val Float
  unfolding ◌+ℤ◌
  combine (list xs) (list ys) = list (extend xs ys)
  combine (int m) (int n) = int (m +ℤ n)
  combine (bool b) (int n) = int (bool_int b +ℤ n)
  combine (int m) (bool c) = int (m +ℤ bool_int c)
  combine (bool b) (bool c) = int (bool_int b +ℤ bool_int c)
  combine old new = old

  -- The loop over `snap.items()`.
  unfoldable pub merge_fields : Fields Float → Fields Float → Fields Float
  unfolding contains combine
  merge_fields merged end = merged
  merge_fields merged (field key value rest) =
      merge_fields
        (if contains ("errors" ∷ "collection_quality" ∷ "partial" ∷ []) key
          then merged
          else if has merged key
          then set merged key (combine (get merged key null) value)
          else set merged key value)
        rest

  -- The loop over the snapshots.
  unfoldable pub merge_loop :
      List (Fields Float) → Fields Float → Items Float → ℕ → ℕ → Py (Fields Float)
  unfolding merge_fields errors_of
  merge_loop [] merged all_errors attempted succeeded =
      ok (finalize_snapshot merged all_errors attempted succeeded)
  merge_loop (snap ∷ snapshots) merged all_errors attempted succeeded = do
    errors ← errors_of snap
    merge_loop snapshots (merge_fields merged snap) (extend all_errors errors) (suc attempted)
        (if is_text (get snap "collection_quality" null) "failed" then succeeded else suc succeeded)

  unfoldable pub merge_results : List (Fields Float) → Py (Fields Float)
  unfolding merge_loop
  merge_results [] = ok (finalize_snapshot end nil 0 0)
  merge_results (snap ∷ snapshots) = merge_loop (snap ∷ snapshots) end nil 0 0

  -- An error that is only a text becomes a record of severity `high`.
  abbrev provider_error : Val Float → Val Float
  provider_error e =
      dict
        (field "code" (str "ProviderError") (field "message" e (field "severity" (str "high") end)))

  provider_errors : Items Float → Items Float
  provider_errors nil = nil
  provider_errors (item e es) = item (provider_error e) (provider_errors es)

  -- The first error decides.
  unfoldable pub normalised : Items Float → Items Float
  unfolding provider_errors
  normalised (item (str e) es) = provider_errors (item (str e) es)
  normalised es = es

  -- What becomes of the payload's status.
  unfoldable pub downgrade : Val Float → Fields Float → Fields Float
  downgrade quality payload =
      if is_text quality "failed"
      then set payload "status" (str "red")
      else if is_text quality "partial" && is_text (get payload "status" null) "green"
      then set payload "status" (str "yellow")
      else payload

  unfoldable pub apply_collection_metadata : Fields Float → Fields Float → Py (Fields Float)
  unfolding errors_of normalised downgrade
  apply_collection_metadata payload snap = do
    errors ← errors_of snap
    let quality = get snap "collection_quality" (str "complete")
    ok (
        downgrade quality
          (set (set payload "errors" (list (normalised errors))) "collection_quality" quality))

-- `worst_status(*statuses)`
unfoldable pub worst_status : List String → String
unfolding contains
worst_status statuses =
    if contains statuses "red"
    then "red"
    else if contains statuses "yellow"
    then "yellow"
    else "green"

-- `failure_payload`, with the time that `utc_now_iso` gives.
unfoldable pub failure_payload :
    {F : Type 0} → String → String → String → String → String → Fields F
failure_payload now control_id provider_name collector error = field "control_id" (str control_id) (
    field "collection_timestamp" (str now) (
      field "status" (str "red") (
        field "collection_quality" (str "failed") (
          field "metrics" (dict (field "collection_failed" (bool true) end)) (
            field "evidence_artifacts" (list nil) (
              field "findings"
                (list (
                  item
                    (dict (
                      field "issue" (str error)
                        (field "severity" (str "critical") (field "resource" (str collector) end))))
                    nil))
                (field "errors"
                  (list (
                    item
                      (dict (
                        field "code" (str "CollectionFailed")
                          (field "message" (str error) (field "severity" (str "critical") end))))
                      nil))
                  (field "notes" (str (collector <> " failed: " <> error))
                    (field "provider" (str provider_name) end)))))))))
