-- ===== src/Daemon/Tests.antt =====
-- The theorems about sentinel/daemon.py for a daemon that was started, stopped and started again.
use soc2_sentinel.Base.{String, ◌≡◌, refl, false, true, [], ◌∷◌, length}
use soc2_sentinel.Base.Int.{pos}
use soc2_sentinel.Python.{Exception}
use soc2_sentinel.Daemon.{testing, monitor}
use soc2_sentinel.Daemon.Threads.{System, made, Reaches}
use soc2_sentinel.Daemon.Piled.{Reaches-piled}

abbrev first : System
first = made "aws" (pos 3_600)

abbrev message : Exception → String
message _ = "error"

abbrev restarted : System
restarted = record {
  state = record (monitor "aws" (pos 3_600)) { running = true; threads = testing ∷ [] };
  latest_alive = true;
  stops = [];
}

Reaches-piled_example :
    (s : System) × Reaches message true false first s
    × (length s.state.threads ≡ 2)
    × (s.state.running ≡ true)
    × (s.state.stop_set ≡ false)
    × (s.stops ≡ [])
Reaches-piled_example = Reaches-piled message "aws" (pos 3_600) true false refl 1
