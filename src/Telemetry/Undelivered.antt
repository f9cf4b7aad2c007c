-- ===== src/Telemetry/Undelivered.antt =====
-- What the worker still does after `shutdown`.
use soc2_sentinel.Base.{
  ℕ, zero, suc, ◌+◌, ◌≤◌, true, false, List, [], ◌∷◌, ◌++◌, Option, none, some, ◌≡◌, refl, ap,
  arith, if◌then◌else◌, length, length-append, ltb,
}
use soc2_sentinel.Telemetry.{
  SinkClass, Manager, Worker, at_test, in_body, ended, fill_batch, dispatch, work, step, steps,
  shutdown, queue_size,
}

module _ (E S : Type 0) (C : SinkClass E S) where
  length-fill_batch_le :
      (n : ℕ) (queue : List (Option E)) → length queue ≤ length (fill_batch E S C n queue).1 + n
  unfolding fill_batch
  length-fill_batch_le zero queue = omega arith
  length-fill_batch_le (suc n) [] = omega arith
  length-fill_batch_le (suc n) (none ∷ queue) = omega arith
  length-fill_batch_le (suc n) (some event ∷ queue) = omega (arith, length-fill_batch_le n queue)

  steps-ended :
      (n : ℕ) (m : Manager E S C) → (steps E S C n (record m { worker = ended })).queue ≡ m.queue
  unfolding steps step
  steps-ended zero m = refl
  steps-ended (suc n) m = steps-ended n m

  steps-at_test :
      (n : ℕ) (m : Manager E S C)
      → (steps E S C n (record m { running = false; worker = at_test })).queue ≡ m.queue
  unfolding steps step
  steps-at_test zero m = refl
  steps-at_test (suc n) m = steps-ended n (record m { running = false })

  steps-work_le :
      (n : ℕ) (queue : List (Option E)) (m : Manager E S C)
      → length queue
        ≤ length
            (steps E S C n (work E S C queue (record m { queue = queue; running = false }))).queue
          + 50
  unfolding work
  steps-work_le n [] m = omega arith
  steps-work_le n (none ∷ queue) m =
      omega (arith, ap length (steps-ended n (record m { queue = queue; running = false })))
  steps-work_le n (some event ∷ queue) m =
      let filled = fill_batch E S C 49 queue in
      let after = record m {
        store = dispatch E S C (event ∷ filled.0) m.sinks m.store;
        queue = filled.1;
      } in
      omega (arith, length-fill_batch_le 49 queue, ap length (steps-at_test n after))

  steps-stopped_le :
      (n : ℕ) (worker : Worker) (queue : List (Option E)) (m : Manager E S C)
      → length queue
        ≤ length
            (steps E S C n (record m { queue = queue; running = false; worker = worker })).queue
          + 50
  unfolding steps step
  steps-stopped_le n at_test queue m =
      omega (arith, ap length (steps-at_test n (record m { queue = queue })))
  steps-stopped_le n ended queue m =
      omega (arith, ap length (steps-ended n (record m { queue = queue; running = false })))
  steps-stopped_le zero in_body queue m = omega arith
  steps-stopped_le (suc n) in_body queue m = steps-work_le n queue (record m { worker = in_body })

  -- Whatever number of steps the worker takes after the shutdown of a running manager, at most 50 of the
  -- entries that were in the queue have left it.
  pub shutdown-undelivered :
      (n : ℕ) (m : Manager E S C)
      → m.running ≡ true
      → length m.queue ≤ length (steps E S C n (shutdown E S C m)).queue + 50
  unfolding shutdown
  shutdown-undelivered n m h = rw h (le_trans _ _ _ longer (steps-stopped_le n m.worker _ m))
    where
      longer :
          length m.queue
          ≤ length (if ltb (length m.queue) queue_size then m.queue ++ (none ∷ []) else m.queue)
      longer = ground (arith, length-append m.queue (none ∷ []))

      le_trans : (a b c : ℕ) → a ≤ b → b ≤ c → a ≤ c
      le_trans a b c h k = omega arith
