-- ===== src/Collection/Tests.antt =====
-- Witnesses for the collections of snapshots, over the concrete floats.
use soc2_sentinel.Base.{String, refl, true, false, contains, [], ◌∷◌, ◌≡◌, ◌≢◌}
use soc2_sentinel.Python.{
  ok, Val, null, bool, str, list, dict, Items, nil, item, Fields, end, field, get, set, extend,
  truthy,
}
use soc2_sentinel.Python.Fixed.{fixed, Fixed}
use soc2_sentinel.Collection.{
  collection_quality, finalize_snapshot, apply_collection_metadata, merge_results, merge_loop,
  merge_fields, errors_of, normalised, downgrade,
}
use soc2_sentinel.Collection.Quality.{finalize_snapshot-not_green}
use soc2_sentinel.Collection.Merge.{concat_errors}

abbrev text : String → Val Fixed
text s = str s

abbrev green : Fields Fixed
green = field "status" (str "green") end

abbrev partial : Fields Fixed
partial = field "collection_quality" (str "partial") (field "errors" null end)

abbrev failed : Fields Fixed
failed = field "collection_quality" (str "failed") end

-- `green` with the quality of `partial`.
abbrev downgraded : Fields Fixed
downgraded =
    field "status" (str "yellow")
      (field "errors" (list nil) (field "collection_quality" (str "partial") end))

downgraded_lem : apply_collection_metadata fixed green partial ≡ ok downgraded
unfolding apply_collection_metadata errors_of get truthy normalised downgrade set
downgraded_lem = refl

-- A snapshot with one error in three checks, and the payload that takes it up.
abbrev denied : Items Fixed
denied = item (dict (field "code" (str "AccessDenied") end)) nil

abbrev yellow : Fields Fixed
yellow =
    field "status" (str "yellow")
      (field "errors" (list denied) (field "collection_quality" (str "partial") end))

yellow_lem :
    apply_collection_metadata fixed green (finalize_snapshot fixed end denied 3 2) ≡ ok yellow
unfolding apply_collection_metadata errors_of get truthy normalised downgrade set finalize_snapshot
    collection_quality contains
yellow_lem = refl

finalize_snapshot-not_green_example :
    (text "yellow" ≢ str "green") × (text "partial" ≢ str "complete")
unfolding get
finalize_snapshot-not_green_example =
    finalize_snapshot-not_green fixed green end yellow
      (dict (field "code" (str "AccessDenied") end)) nil 3 2 yellow_lem

-- Two snapshots, the second failed with the error of the first.
abbrev listed : Fields Fixed
listed = field "collection_quality" (str "partial") (field "errors" (list denied) end)

abbrev merged_partial : Fields Fixed
merged_partial =
    field "errors" (list denied)
      (field "collection_quality" (str "partial") (field "partial" (bool true) end))

merged_partial_lem : merge_results fixed (listed ∷ failed ∷ []) ≡ ok merged_partial
unfolding merge_results merge_loop merge_fields extend errors_of get truthy set finalize_snapshot
    collection_quality contains
merged_partial_lem = refl

listed_errors : concat_errors fixed (listed ∷ failed ∷ []) ≡ ok denied
unfolding concat_errors errors_of get truthy extend
listed_errors = refl

-- A failed snapshot that lists no error merges into a complete one.
abbrev merged_complete : Fields Fixed
merged_complete =
    field "errors" (list nil)
      (field "collection_quality" (str "complete") (field "partial" (bool false) end))

merged_complete_lem : merge_results fixed (failed ∷ []) ≡ ok merged_complete
unfolding merge_results merge_loop merge_fields extend errors_of get truthy set finalize_snapshot
    collection_quality contains
merged_complete_lem = refl

failed_errors : concat_errors fixed (failed ∷ []) ≡ ok nil
unfolding concat_errors errors_of get truthy extend
failed_errors = refl
