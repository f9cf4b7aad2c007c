-- ===== src/Daemon/Threads.antt =====
-- The interleavings of the threads of `_run_loop` with calls of `start` and `stop`.
use soc2_sentinel.Base.{ℕ, String, ◌≡◌, Bool, true, false, List, [], ◌∷◌, ◌++◌, Option, some}
use soc2_sentinel.Base.{if◌then◌else◌}
use soc2_sentinel.Base.Int.{ℤ}
use soc2_sentinel.Python.{Exception, Py}
use soc2_sentinel.Daemon.{
  Monitor, Phase, testing, cycling, waiting, monitor, start, request_stop, finish_stop,
  execute_cycle,
}

-- A call of `stop` that has set the event: it waits for the thread, or it has waited and is about to say
-- that the daemon does not run.
pub data Stopping : Type 0 where
  joining leaving : Stopping

pub record System : Type 0 where
  pub state : Monitor
  -- `_thread.is_alive()`. `_thread` is the thread that was started last, so if it is alive it is the last
  -- one of the list.
  pub latest_alive : Bool
  -- The calls of `stop` that have not returned.
  pub stops : List Stopping

abbrev pub made : String → ℤ → System
made provider_name interval_seconds = record {
  state = monitor provider_name interval_seconds;
  latest_alive = false;
  stops = [];
}

abbrev pub start_in : System → System
start_in s = record s {
  state = start s.state;
  latest_alive = if s.state.running then s.latest_alive else true;
}

-- Whether the last thread is alive after a thread that has these threads after it ended.
abbrev pub still_alive : List Phase → Bool → Bool
still_alive [] latest_alive = false
still_alive (_ ∷ _) latest_alive = latest_alive

abbrev pub is_cycling : Phase → Bool
is_cycling cycling = true
is_cycling testing = false
is_cycling waiting = false

-- What a thread does while it goes on, and `run_once_now`.
pub data Move (describe : Exception → String) : Monitor → Monitor → Type 0 where
  -- The stop event is not set, and the next run is announced.
  entered :
      (m : Monitor) (before after : List Phase) (next_run : String)
      → m.stop_set ≡ false
      → m.threads ≡ before ++ (testing ∷ after)
      → Move describe m
          (record m { next_run_timestamp = some next_run; threads = before ++ (cycling ∷ after) })
  cycled :
      (m : Monitor) (before after : List Phase) (now : String) (provider : Py (Unit {0}))
      (collectors : List (String × Option (Py (Unit {0})))) (drift : Py ℕ)
      → m.threads ≡ before ++ (cycling ∷ after)
      → Move describe m (record (execute_cycle describe now provider collectors drift m).1 {
        threads = before ++ (waiting ∷ after);
      })
  -- The wait is over and the event was not set.
  waited :
      (m : Monitor) (before after : List Phase)
      → m.threads ≡ before ++ (waiting ∷ after)
      → Move describe m (record m { threads = before ++ (testing ∷ after) })
  -- `run_once_now`, which runs a cycle in the thread of its caller.
  ran_now :
      (m : Monitor) (now : String) (provider : Py (Unit {0}))
      (collectors : List (String × Option (Py (Unit {0})))) (drift : Py ℕ)
      → Move describe m (execute_cycle describe now provider collectors drift m).1

-- One step. Where `alone`, `stop` is called only if no other call of it has still to return. Where `waits`,
-- the wait of a stop is over only if the thread that was started last has ended, which is so if a thread
-- ends within the time-out of `join`.
pub data Step (describe : Exception → String) (waits alone : Bool) : System → System → Type 0 where
  started : (s : System) → Step describe waits alone s (start_in s)
  -- `stop` of a daemon that does not run returns.
  declined :
      (s : System)
      → s.state.running ≡ false
      → Step describe waits alone s (record s { state = request_stop s.state })
  requested :
      (s : System)
      → s.state.running ≡ true
      → (alone ≡ true → s.stops ≡ [])
      → Step describe waits alone s
          (record s { state = request_stop s.state; stops = joining ∷ s.stops })
  joined :
      (s : System) (before after : List Stopping)
      → s.stops ≡ before ++ (joining ∷ after)
      → (waits ≡ true → s.latest_alive ≡ false)
      → Step describe waits alone s (record s { stops = before ++ (leaving ∷ after) })
  finished :
      (s : System) (before after : List Stopping)
      → s.stops ≡ before ++ (leaving ∷ after)
      → Step describe waits alone s
          (record s { state = finish_stop s.state; stops = before ++ after })
  -- The stop event is set where a thread tests it, or while it waits.
  ended :
      (s : System) (before after : List Phase) (p : Phase)
      → s.state.stop_set ≡ true
      → is_cycling p ≡ false
      → s.state.threads ≡ before ++ (p ∷ after)
      → Step describe waits alone s (record s {
        state = record (s.state) { threads = before ++ after };
        latest_alive = still_alive after s.latest_alive;
      })
  moved :
      (s : System) {m : Monitor}
      → Move describe s.state m
      → Step describe waits alone s (record s { state = m })

pub data Reaches (describe : Exception → String) (waits alone : Bool) (first : System)
    : System → Type 0 where
  begin : Reaches describe waits alone first first
  next :
      {s t : System}
      → Reaches describe waits alone first s
      → Step describe waits alone s t
      → Reaches describe waits alone first t
