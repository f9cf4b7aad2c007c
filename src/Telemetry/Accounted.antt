-- ===== src/Telemetry/Accounted.antt =====
-- What becomes of the events that are emitted while the worker runs: they wait in the queue, or are handed
-- to every registered sink.
use soc2_sentinel.Base.{ℕ, ◌+◌, Bool, List, [], ◌∷◌, ◌++◌, Option, none, some, ◌≡◌, count}
use soc2_sentinel.Telemetry.{SinkClass, Manager, emit, emit_sync, step}

-- A call of a sink's `send` or `send_batch`.
pub data Call (E : Type 0) : Type 0 where
  sent : E → Call E
  sent_batch : List E → Call E

-- The events that calls hand over.
abbrev pub handed : {E : Type 0} → List (Call E) → List E
handed [] = []
handed (sent event ∷ calls) = event ∷ handed calls
handed (sent_batch events ∷ calls) = events ++ handed calls

-- The calls of the threads that use the manager, and the steps of the worker.
pub data Action (E : Type 0) : Type 0 where
  emitted sent_now : E → Action E
  worked : Action E

module _ (E S : Type 0) (C : SinkClass E S) where
  abbrev pub act : Action E → Manager E S C → Manager E S C
  act (emitted event) m = emit E S C event m
  act (sent_now event) m = emit_sync E S C event m
  act worked m = step E S C m

  abbrev pub act_all : List (Action E) → Manager E S C → Manager E S C
  act_all [] m = m
  act_all (action ∷ actions) m = act_all actions (act action m)

  -- The events in the queue.
  abbrev pub pending : List (Option E) → List E
  pending [] = []
  pending (none ∷ queue) = pending queue
  pending (some event ∷ queue) = event ∷ pending queue

  abbrev pub emissions : List (Action E) → List E
  emissions [] = []
  emissions (emitted event ∷ actions) = event ∷ emissions actions
  emissions (sent_now event ∷ actions) = event ∷ emissions actions
  emissions (worked ∷ actions) = emissions actions

  -- A sink's state after these calls, whatever they return or raise.
  abbrev pub after_calls : List (Call E) → S → S
  after_calls [] state = state
  after_calls (sent event ∷ calls) state = after_calls calls (C.send event state).1
  after_calls (sent_batch events ∷ calls) state = after_calls calls (C.send_batch events state).1

  -- The events that were waiting before, and these, have been handed to the sink by calls that lead from
  -- its state before to its state after, or wait after: as many of each kind.
  pub record IsHandedOver (ref : ℕ) (events : List E) (before after : Manager E S C) : Type 0 where
    pub calls : List (Call E)
    pub led : after_calls calls (before.store ref) ≡ after.store ref
    pub counted :
        (p : E → Bool)
        → count p (handed calls) + count p (pending after.queue)
          ≡ count p (pending before.queue) + count p events
