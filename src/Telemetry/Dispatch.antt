-- ===== src/Telemetry/Dispatch.antt =====
-- `TelemetryManager` of sentinel/telemetry.py: the sinks, the queue, and the worker thread that empties
-- it. A sink is known by a number, which is its identity as an object, and the states of all sinks stand
-- in a store, since the manager keeps its memory sink also while it is not registered. What the sinks do
-- is an interface. The worker is a step function: the calls of other threads come between its steps.
-- Subscribers, which are called with each event, are left out, as is `flush`, which only waits.
use soc2_sentinel.Base.{
  ℕ, zero, suc, Bool, true, false, ◌||◌, List, [], ◌∷◌, ◌++◌, Option, none, some, length, ltb, ◌==◌,
  if◌then◌else◌,
}
use soc2_sentinel.Python.{Py}

-- `send` and `send_batch` return or raise, and `close` lets go of what the sink holds.
pub record SinkClass (E S : Type 0) : Type 0 where
  pub send : E → S → Py Bool × S
  pub send_batch : List E → S → Py ℕ × S
  pub close : S → S

-- The worker is before the test of its loop, in the body, or has left.
pub data Worker : Type 0 where
  at_test in_body ended : Worker

abbrev pub memory_ref : ℕ
memory_ref = 0

abbrev pub queue_size : ℕ
queue_size = 10_000

-- `sink in self.sinks`
abbrev pub is_member : List ℕ → ℕ → Bool
is_member [] ref = false
is_member (other ∷ refs) ref = ref == other || is_member refs ref

abbrev pub remove_first : List ℕ → ℕ → List ℕ
remove_first [] ref = []
remove_first (other ∷ refs) ref =
    let rest = remove_first refs ref in if ref == other then refs else other ∷ rest

module _ (E S : Type 0) (C : SinkClass E S) where
  abbrev pub SinkStore : Type 0
  SinkStore = ℕ → S

  pub record Manager : Type 0 where
    pub sinks : List ℕ
    pub store : SinkStore
    -- none is the mark to stop.
    pub queue : List (Option E)
    pub running : Bool
    pub worker : Worker

  abbrev pub set_sink : ℕ → S → SinkStore → SinkStore
  set_sink ref state store = λ other. if other == ref then state else store other

  unfoldable pub start_worker : Manager → Manager
  start_worker m = if m.running then m else record m { running = true; worker = at_test }

  unfoldable pub add_sink : ℕ → Manager → Manager
  add_sink ref m = if is_member m.sinks ref then m else record m { sinks = m.sinks ++ (ref ∷ []) }

  -- The constructor: the memory sink and the file sink, then one for syslog and one for HTTP where they
  -- are configured, with the states of the new sinks.
  unfoldable pub new_manager : SinkStore → Bool → Bool → Bool → Manager
  unfolding start_worker add_sink
  new_manager store syslog http enable_worker =
      let bare : Manager = record {
        sinks = [];
        store = store;
        queue = [];
        running = false;
        worker = ended;
      } in
      let local = add_sink 1 (add_sink memory_ref bare) in
      let remote = if syslog then add_sink 2 local else local in
      let all = if http then add_sink 3 remote else remote in
      if enable_worker then start_worker all else all

  unfoldable pub remove_sink : ℕ → Manager → Manager
  remove_sink ref m =
      if is_member m.sinks ref then record m { sinks = remove_first m.sinks ref } else m

  unfoldable pub clear_sinks : Manager → Manager
  clear_sinks m = record m { sinks = memory_ref ∷ [] }

  -- The event goes to every sink; what one raises is logged.
  unfoldable pub send_each : E → List ℕ → SinkStore → SinkStore
  send_each event [] store = store
  send_each event (ref ∷ refs) store =
      send_each event refs (set_sink ref (C.send event (store ref)).1 store)

  -- `emit`, from where the event is there.
  unfoldable pub emit : E → Manager → Manager
  unfolding send_each
  emit event m =
      if ltb (length m.queue) queue_size
      then record m { queue = m.queue ++ (some event ∷ []) }
      else record m { store = send_each event m.sinks m.store }

  unfoldable pub emit_sync : E → Manager → Manager
  unfolding send_each
  emit_sync event m = record m { store = send_each event m.sinks m.store }

  -- The loop that fills up a batch with so many events more, and the queue that it leaves.
  unfoldable pub fill_batch : ℕ → List (Option E) → List E × List (Option E)
  fill_batch zero queue = ([], queue)
  fill_batch (suc n) [] = ([], [])
  fill_batch (suc n) (none ∷ queue) = ([], queue)
  fill_batch (suc n) (some event ∷ queue) =
      let rest = fill_batch n queue in (event ∷ rest.0, rest.1)

  unfoldable pub dispatch : List E → List ℕ → SinkStore → SinkStore
  dispatch batch [] store = store
  dispatch batch (ref ∷ refs) store =
      dispatch batch refs (set_sink ref (C.send_batch batch (store ref)).1 store)

  -- The body of the worker's loop.
  unfoldable pub work : List (Option E) → Manager → Manager
  unfolding fill_batch dispatch
  work [] m = record m { worker = at_test }
  work (none ∷ queue) m = record m { queue = queue; worker = ended }
  work (some first ∷ queue) m =
      let filled = fill_batch 49 queue in
      record m {
        store = dispatch (first ∷ filled.0) m.sinks m.store;
        queue = filled.1;
        worker = at_test;
      }

  abbrev pub step_of : Worker → Manager → Manager
  step_of at_test m = record m { worker = if m.running then in_body else ended }
  step_of in_body m = work m.queue m
  step_of ended m = m

  -- `_worker_loop`, a step of it and so many.
  unfoldable pub step : Manager → Manager
  unfolding work
  step m = step_of m.worker m

  unfoldable pub steps : ℕ → Manager → Manager
  unfolding step
  steps zero m = m
  steps (suc n) m = steps n (step m)

  unfoldable pub close_each : List ℕ → SinkStore → SinkStore
  close_each [] store = store
  close_each (ref ∷ refs) store = close_each refs (set_sink ref (C.close (store ref)) store)

  -- `shutdown` up to where it waits for the worker, and what it does after that where the manager was
  -- running.
  unfoldable pub shutdown : Manager → Manager
  shutdown m =
      if m.running
      then record m {
        running = false;
        queue = if ltb (length m.queue) queue_size then m.queue ++ (none ∷ []) else m.queue;
      }
      else m

  unfoldable pub close_sinks : Manager → Manager
  unfolding close_each
  close_sinks m = record m { store = close_each m.sinks m.store }
