-- ===== src/Daemon/State.antt =====
-- The state of `ContinuousMonitoringDaemon` of sentinel/daemon.py. A thread is what it does next: it tests
-- the stop event, runs a cycle, or waits. Only threads that have not ended are listed.
use soc2_sentinel.Base.{
  ℕ, String, Bool, true, false, List, [], ◌∷◌, ◌++◌, Option, none, if◌then◌else◌,
}
use soc2_sentinel.Base.Int.{ℤ, pos, ltb_ℤ}

pub data Phase : Type 0 where
  testing cycling waiting : Phase

pub record Monitor : Type 0 where
  pub provider_name : String
  pub interval_seconds : ℤ
  -- `_stop_event.is_set()`
  pub stop_set : Bool
  pub running : Bool
  pub last_run_timestamp : Option String
  pub next_run_timestamp : Option String
  pub total_runs : ℕ
  pub last_errors : List String
  pub last_drift_count : ℕ
  pub threads : List Phase

-- `__init__`, with `max(10, interval_seconds)`
unfoldable pub monitor : String → ℤ → Monitor
monitor provider_name interval_seconds = record {
  provider_name = provider_name;
  interval_seconds = if ltb_ℤ (pos 10) interval_seconds then interval_seconds else pos 10;
  stop_set = false;
  running = false;
  last_run_timestamp = none;
  next_run_timestamp = none;
  total_runs = 0;
  last_errors = [];
  last_drift_count = 0;
  threads = [];
}

pub record DaemonStatus : Type 0 where
  pub running : Bool
  pub interval_seconds : ℤ
  pub provider : String
  pub last_run_timestamp : Option String
  pub next_run_timestamp : Option String
  pub total_runs_completed : ℕ
  pub last_run_errors : List String
  pub last_drift_count : ℕ

abbrev pub get_status : Monitor → DaemonStatus
get_status m = record {
  running = m.running;
  interval_seconds = m.interval_seconds;
  provider = m.provider_name;
  last_run_timestamp = m.last_run_timestamp;
  next_run_timestamp = m.next_run_timestamp;
  total_runs_completed = m.total_runs;
  last_run_errors = m.last_errors;
  last_drift_count = m.last_drift_count;
}

-- `start`; the new thread runs `_run_loop`.
unfoldable pub start : Monitor → Monitor
start m =
    if m.running
    then m
    else record m { stop_set = false; running = true; threads = m.threads ++ (testing ∷ []) }

-- `stop` until it waits for the thread.
unfoldable pub request_stop : Monitor → Monitor
request_stop m = if m.running then record m { stop_set = true } else m

-- `stop` after it waited.
unfoldable pub finish_stop : Monitor → Monitor
finish_stop m = record m { running = false }
