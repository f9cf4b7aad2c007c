-- ===== src/Collection/Merge.antt =====
-- What a merge of snapshots reports of their quality.
use soc2_sentinel.Base.{
  ℕ, suc, ◌≡◌, refl, Bool, not, List, [], ◌∷◌, length, count, arith, if◌then◌else◌, ap, subst, ◌+◌,
  inl, inr,
}
use soc2_sentinel.Python.{
  Py, ok, ◌>>=◌, Py-cases, null, str, Items, nil, item, extend, Fields, end, get, is_text, Floats,
}
use soc2_sentinel.Collection.{
  collection_quality, errors_of, merge_loop, merge_fields, merge_results,
}
use soc2_sentinel.Collection.Quality.{finalize_snapshot-quality}

-- A snapshot that counts as a check that succeeded.
abbrev pub not_failed : {V : Type 0} → Fields V → Bool
not_failed snap = not (is_text (get snap "collection_quality" null) "failed")

module _ (F : Floats) where
  extend-nil : (xs : Items F.Float) → extend xs nil ≡ xs
  unfolding extend
  extend-nil nil = refl
  extend-nil (item x xs) = ap (item x) (extend-nil xs)

  extend_assoc : (xs ys zs : Items F.Float) → extend (extend xs ys) zs ≡ extend xs (extend ys zs)
  unfolding extend
  extend_assoc nil ys zs = refl
  extend_assoc (item x xs) ys zs = ap (item x) (extend_assoc xs ys zs)

  -- The errors of all the snapshots, and the quality's own count of those that did not fail.
  unfoldable pub concat_errors : List (Fields F.Float) → Py (Items F.Float)
  unfolding errors_of
  concat_errors [] = ok nil
  concat_errors (snap ∷ snaps) = do
    errors ← errors_of F snap
    rest ← concat_errors snaps
    ok (extend errors rest)

  merge_loop-quality :
      (snaps : List (Fields F.Float)) (merged merged' : Fields F.Float)
      (before after : Items F.Float) (attempted succeeded : ℕ)
      → merge_loop F snaps merged before attempted succeeded ≡ ok merged'
      → concat_errors snaps ≡ ok after
      → get merged' "collection_quality" null
        ≡ str (
            collection_quality F
              (extend before after)
              (attempted + length snaps)
              (succeeded + count not_failed snaps))
  unfolding merge_loop concat_errors
  merge_loop-quality [] merged merged' before after attempted succeeded h k =
      let f = finalize_snapshot-quality F merged before attempted succeeded null in
      let z = extend-nil before in grind (arith, f, z, h, k)
  merge_loop-quality (snap ∷ snaps) merged merged' before after attempted succeeded h k =
      elim (Py-cases (errors_of F snap)) [
        | inl (es, e) ↦ elim (Py-cases (concat_errors snaps)) [
          | inl (rest, r) ↦
              let ih =
                merge_loop-quality snaps (merge_fields F merged snap) merged' (extend before es)
                  rest (suc attempted)
                  (if is_text (get snap "collection_quality" null) "failed"
                    then succeeded
                    else suc succeeded) in
              let a = extend_assoc before es rest in grind (arith, a, e, r, h, k, ih)
          | inr (x, r) ↦ absurd (ground arith)
        ]
        | inr (x, e) ↦ absurd (ground arith)
      ]

  -- The quality of a merge of at least one snapshot is that of all their errors together, with one
  -- check attempted for each snapshot and one succeeded for each that is not marked failed.
  pub merge_results-quality :
      (snap merged : Fields F.Float) (snaps : List (Fields F.Float)) (errors : Items F.Float)
      → merge_results F (snap ∷ snaps) ≡ ok merged
      → concat_errors (snap ∷ snaps) ≡ ok errors
      → get merged "collection_quality" null
        ≡ str
            (collection_quality F errors (length (snap ∷ snaps)) (count not_failed (snap ∷ snaps)))
  unfolding merge_results extend
  merge_results-quality snap merged snaps errors h k =
      let m = length (snap ∷ snaps) in
      let n = count not_failed (snap ∷ snaps) in
      let quality =
        λ (i j : ℕ). get merged "collection_quality" null ≡ str (collection_quality F errors i j) in
      let left : 0 + m ≡ m = omega arith in
      let right : 0 + n ≡ n = omega arith in
      subst (λ i. quality i n) left
        (subst (λ j. quality (0 + m) j) right
          (merge_loop-quality (snap ∷ snaps) end merged nil errors 0 0 h k))

  -- A merge of snapshots that list no errors is marked complete, even where each of them is itself
  -- marked failed.
  pub merge_results-unlisted :
      (snap merged : Fields F.Float) (snaps : List (Fields F.Float))
      → merge_results F (snap ∷ snaps) ≡ ok merged
      → concat_errors (snap ∷ snaps) ≡ ok nil
      → get merged "collection_quality" null ≡ str "complete"
  unfolding collection_quality
  merge_results-unlisted snap merged snaps h k =
      ground (arith, merge_results-quality snap merged snaps nil h k)
