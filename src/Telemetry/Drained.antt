-- ===== src/Telemetry/Drained.antt =====
-- The worker of a running `TelemetryManager` empties the queue.
use soc2_sentinel.Base.{
  ℕ, zero, suc, ◌*◌, ◌≤◌, true, List, [], ◌∷◌, ◌++◌, map, some, ◌≡◌, refl, sym, subst, ap, ◌∙◌,
  arith, length, take, drop, flatten, length-drop, take-append-drop,
}
use soc2_sentinel.Telemetry.{
  SinkClass, Manager, at_test, is_member, fill_batch, dispatch, work, step, steps,
}
use soc2_sentinel.Telemetry.Sinks.{IsDistinct, dispatch-at}

module _ (E S : Type 0) (C : SinkClass E S) where
  -- A running manager with these events in the queue, whose worker is before the test of its loop.
  abbrev pub busy : List E → Manager E S C → Manager E S C
  busy events m = record m { queue = map some events; running = true; worker = at_test }

  -- A sink after these batches.
  abbrev pub delivered : S → List (List E) → S
  delivered state [] = state
  delivered state (batch ∷ batches) = delivered (C.send_batch batch state).1 batches

  -- Two steps of the worker, a pass through its loop, so many times.
  abbrev pub twice : ℕ → ℕ
  twice zero = zero
  twice (suc n) = suc (suc (twice n))

  fill_batch-events :
      (n : ℕ) (events : List E)
      → fill_batch E S C n (map some events) ≡ (take n events, map some (drop n events))
  unfolding fill_batch
  fill_batch-events zero events = refl
  fill_batch-events (suc n) [] = refl
  fill_batch-events (suc n) (event ∷ events) = rw (fill_batch-events n events) refl

  -- The events have all reached a sink, in their order, in batches.
  abbrev pub IsDelivered : List E → S → S → Type 0
  IsDelivered events before after =
      (batches : List (List E)) × (flatten batches ≡ events) × (delivered before batches ≡ after)

  -- The queue is empty, and this sink has got the events.
  abbrev pub IsDrained : List E → ℕ → Manager E S C → Manager E S C → Type 0
  IsDrained events ref before after =
      (after.queue ≡ []) × IsDelivered events (before.store ref) (after.store ref)

  -- The manager after a pass that meets an event.
  next : E → List E → Manager E S C → Manager E S C
  next event events m = record m { store = dispatch E S C (event ∷ take 49 events) m.sinks m.store }

  pass :
      (event : E) (events : List E) (m : Manager E S C)
      → step E S C (step E S C (busy (event ∷ events) m))
        ≡ busy (drop 49 events) (next event events m)
  unfolding step work next
  pass event events m = rw (fill_batch-events 49 events) refl

  prepend :
      (event : E) {first rest events : List E} {before middle after : S}
      → first ++ rest ≡ events
      → middle ≡ (C.send_batch (event ∷ first) before).1
      → IsDelivered rest middle after
      → IsDelivered (event ∷ events) before after
  prepend event {first = first} h e (batches, all, same) = (
    (event ∷ first) ∷ batches,
    ap (λ es. (event ∷ first) ++ es) all ∙ ap (λ es. event ∷ es) h,
    ap (λ s. delivered s batches) (sym e) ∙ same,
  )

  -- From any state of the sinks without a repetition, a running manager whose worker is before its test
  -- and whose queue holds at most 50 n events has, after n passes of the worker, an empty queue, and
  -- every registered sink has got these events, each once and in their order, in batches.
  pub steps-IsDrained :
      (n : ℕ) (events : List E) (m : Manager E S C) (ref : ℕ)
      → IsDistinct m.sinks
      → is_member m.sinks ref ≡ true
      → length events ≤ 50 * n
      → IsDrained events ref m (steps E S C (twice n) (busy events m))
  unfolding steps next
  steps-IsDrained zero [] m ref d member h = (refl, ([], refl, refl))
  steps-IsDrained zero (event ∷ events) m ref d member h = absurd (omega arith)
  steps-IsDrained (suc n) [] m ref d member h = steps-IsDrained n [] m ref d member (omega arith)
  steps-IsDrained (suc n) (event ∷ events) m ref d member h =
      let batch = event ∷ take 49 events in
      let (empty, got) =
        steps-IsDrained n (drop 49 events) (next event events m) ref d member
          (omega (arith, h, length-drop 49 events)) in
      subst (λ m'. IsDrained (event ∷ events) ref m (steps E S C (twice n) m'))
        (sym (pass event events m))
        (empty, prepend event (take-append-drop 49 events) (reached batch) got)
    where
      reached :
          (batch : List E)
          → dispatch E S C batch m.sinks m.store ref ≡ (C.send_batch batch (m.store ref)).1
      reached batch = rw (dispatch-at E S C batch m.sinks m.store ref d, member) refl
