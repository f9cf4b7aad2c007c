-- ===== src/Drift/Tests.antt =====
-- The theorems about sentinel/drift.py for the logs of two runs.
use soc2_sentinel.Base.{ℕ, String, ◌≡◌, refl, Bool, true, false, List, [], ◌∷◌, All}
use soc2_sentinel.Base.Int.{pos, ltb_ℤ}
use soc2_sentinel.Python.{Py, ok, raise, type_error, Val, int, str, dict, Fields, end, field, get}
use soc2_sentinel.Python.Fixed.{fixed, Fixed}
use soc2_sentinel.Drift.{Operators, DriftItem, compare_collector_metrics, Run}
use soc2_sentinel.Drift.Watched.{watched, measured, worsened, worse_fields, IsReadable}
use soc2_sentinel.Drift.Single.{fields_of}
use soc2_sentinel.Drift.Reported.{compare_collector_metrics-Reported}

abbrev Value : Type 0
Value = Val Fixed

abbrev less : Value → Value → Py Bool
less (int m) (int n) = ok (ltb_ℤ m n)
less _ _ = raise type_error

abbrev shown : Value → Py String
shown (int n) = ok "number"
shown _ = raise type_error

abbrev operators : Operators fixed
operators = record { eq = λ a b. false; lt = less; gt = λ a b. less b a; show_1 = shown }

abbrev logs_of : ℕ → Fields Fixed
logs_of n = field "critical_events_logged_percentage" (int (pos n)) end

logs-IsReadable :
    All
      (IsReadable fixed operators (logs_of 99) (logs_of 40))
      (watched fixed (str "log_aggregator"))
unfolding watched measured worsened get
logs-IsReadable =
    (record { ordered = (true, refl); shown = (("number", refl), ("number", refl)) }, tt)

compare_collector_metrics-Reported_example :
    (items : List (DriftItem fixed)) × (compare_collector_metrics fixed operators
        (str "log_aggregator")
        (str "CC7.1")
        "now"
        (dict (logs_of 99))
        (dict (logs_of 40))
      ≡ ok items)
    × (fields_of fixed items
        ≡ worse_fields fixed operators
            (logs_of 99)
            (logs_of 40)
            (watched fixed (str "log_aggregator")))
compare_collector_metrics-Reported_example =
    compare_collector_metrics-Reported fixed operators (str "log_aggregator") (str "CC7.1") "now"
      (logs_of 99) (logs_of 40) logs-IsReadable

-- What is reported there.
logs-worse :
    worse_fields fixed operators (logs_of 99) (logs_of 40) (watched fixed (str "log_aggregator"))
    ≡ "critical_events_logged_percentage" ∷ []
unfolding worse_fields watched
logs-worse = refl

abbrev run_on : String → Run fixed
run_on date = record { name = date; is_dir = true; folders = [] }
