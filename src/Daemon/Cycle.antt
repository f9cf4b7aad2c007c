-- ===== src/Daemon/Cycle.antt =====
-- `_execute_cycle` of sentinel/daemon.py. The provider, what each collector does, and the number of drift
-- items are arguments. What goes to the audit log and to telemetry is a result.
use soc2_sentinel.Base.{
  ℕ, suc, String, ◌<>◌, List, [], ◌∷◌, Option, none, some, length, ◌==◌, if◌then◌else◌,
}
use soc2_sentinel.Python.{Exception, Py, ok, raise}
use soc2_sentinel.Daemon.State.{Monitor}

pub data CycleResult : Type 0 where
  cycle_error : String → CycleResult
  -- The timestamp, the errors and the number of drift items.
  cycle_completed : String → List String → ℕ → CycleResult

pub record CycleEvent : Type 0 where
  pub outcome : String
  pub errors_count : ℕ
  pub drift_count : ℕ
  pub run_number : ℕ

module _ (describe : Exception → String) where
  -- The loop over `RUN_ALL_MAPPING`: a collector that is not in `COLLECTORS` is passed over.
  unfoldable pub collector_errors : List (String × Option (Py (Unit {0}))) → List String
  collector_errors [] = []
  collector_errors ((name, none) ∷ collectors) = collector_errors collectors
  collector_errors ((name, some (ok _)) ∷ collectors) = collector_errors collectors
  collector_errors ((name, some (raise exc)) ∷ collectors) =
      ("Collector " <> (name <> (" failed: " <> describe exc))) ∷ collector_errors collectors

  -- The number of drift items, 0 where detection raises.
  abbrev pub drift_or_zero : Py ℕ → ℕ
  drift_or_zero (ok n) = n
  drift_or_zero (raise _) = 0

  abbrev pub init_error : String → Exception → String
  init_error provider_name exc =
      "Failed initializing provider " <> (provider_name <> (": " <> describe exc))

  -- From where the provider is there.
  unfoldable pub collect_once :
      String
      → List (String × Option (Py (Unit {0})))
      → Py ℕ
      → Monitor
      → CycleResult × Monitor × Option CycleEvent
  unfolding collector_errors
  collect_once now collectors drift m =
      let errors = collector_errors collectors in
      let drift_count = drift_or_zero drift in
      (
        cycle_completed now errors drift_count,
        record m {
          last_run_timestamp = some now;
          total_runs = suc m.total_runs;
          last_errors = errors;
          last_drift_count = drift_count;
        },
        some (record {
          outcome = if length errors == 0 then "success" else "partial";
          errors_count = length errors;
          drift_count = drift_count;
          run_number = suc m.total_runs;
        }),
      )

  unfoldable pub execute_cycle :
      String
      → Py (Unit {0})
      → List (String × Option (Py (Unit {0})))
      → Py ℕ
      → Monitor
      → CycleResult × Monitor × Option CycleEvent
  unfolding collect_once
  execute_cycle now (ok _) collectors drift m = collect_once now collectors drift m
  execute_cycle now (raise exc) collectors drift m = (
    cycle_error (init_error m.provider_name exc),
    record m { last_errors = init_error m.provider_name exc ∷ []; last_run_timestamp = some now },
    none,
  )
