-- ===== src/Python/Laws.antt =====
-- What follows from the laws of comparison: clamping, and tests against literals.
use soc2_sentinel.Base.{ℕ, ◌≡◌, inl, inr, true, false, arith, Bool-cases}
use soc2_sentinel.Base.{◌<◌, ◌≤◌}
use soc2_sentinel.Python.{Floats, IsOrdered, min, max}

-- At least `lo` and at most `hi`, in hundredths; so not NaN.
pub record IsWithin (F : Floats) (lo hi : ℕ) (x : F.Float) : Type 0 where
  pub at_least : F.le (F.lit lo) x ≡ true
  pub at_most : F.le x (F.lit hi) ≡ true

module _ (F : Floats) (L : IsOrdered F) where
  pub lt_asym : (a b : F.Float) → F.lt a b ≡ true → F.lt b a ≡ false
  lt_asym a b h = elim (Bool-cases (F.lt b a)) [
    | inl k ↦ cc (L.lt-not_le a b h, L.lt-le b a k)
    | inr k ↦ k
  ]

  pub lt_irrefl : (a : F.Float) → F.lt a a ≡ false
  lt_irrefl a = elim (Bool-cases (F.lt a a)) [ inl k ↦ lt_asym a a k | inr k ↦ k ]

  pub max-IsWithin :
      (lo hi : ℕ) (x : F.Float)
      → lo < hi
      → hi ≤ 10_000
      → IsWithin F lo hi (max F (F.lit lo) (min F (F.lit hi) x))
  max-IsWithin lo hi x h k =
      let small : lo ≤ 10_000 = omega (arith, h, k) in
      record {
        at_least =
            ground (arith, L.lt-le (F.lit lo) (min F (F.lit hi) x), L.le-lit lo lo small small);
        at_most = ground (arith, L.lt-le x (F.lit hi), L.le-lit hi hi k k, L.le-lit lo hi small k);
      }

  -- Below a literal is below every larger literal.
  pub lt-lit_mono :
      (m n : ℕ) (x : F.Float)
      → m < n
      → n ≤ 10_000
      → F.lt x (F.lit m) ≡ true
      → F.lt x (F.lit n) ≡ true
  lt-lit_mono m n x h b k =
      L.lt_trans x (F.lit m) (F.lit n) k (ground (arith, L.lt-lit m n (omega (arith, h, b)) b))

  -- `min(cap, x)`, clamped from 0 to a top above the cap, is not as large as a literal above the cap.
  pub capped-not_le :
      (cap top n : ℕ) (x : F.Float)
      → cap < n
      → cap < top
      → top ≤ 10_000
      → n ≤ 10_000
      → 0 < n
      → F.le (F.lit n) (max F (F.lit 0) (min F (F.lit top) (min F (F.lit cap) x))) ≡ false
  capped-not_le cap top n x h k bt bn pos =
      let bc : cap ≤ 10_000 = omega (arith, h, bn) in
      ground (
        arith,
        lt-lit_mono cap n x h bn,
        lt-lit_mono cap top x k bt,
        L.lt-lit cap top bc bt,
        L.le-lit n cap bn bc,
        L.le-lit n top bn bt,
        L.le-lit n 0 bn (omega arith),
        L.lt-not_le x (F.lit n),
      )
