-- ===== src/Telemetry/Memory.antt =====
-- `MemorySink` of sentinel/telemetry.py.
use soc2_sentinel.Base.{
  ℕ, zero, suc, ◌-◌, String, Bool, true, List, [], ◌∷◌, ◌++◌, map, Option, none, some, str_eq,
  length, drop, keep, reverse, if◌then◌else◌,
}
use soc2_sentinel.Base.Int.{ℤ, pos, negsuc}
use soc2_sentinel.Python.{Floats, Fields}
use soc2_sentinel.Telemetry.Event.{AuditEvent, Host, to_dict}

module _ (F : Floats) where
  pub record MemorySink : Type 0 where
    pub max_size : ℕ
    pub events : List (AuditEvent F)

  abbrev pub memory_sink : ℕ → MemorySink
  memory_sink max_size = record { max_size = max_size; events = [] }

  -- `append` of a deque with a greatest length drops the oldest.
  unfoldable pub memory_send : AuditEvent F → MemorySink → Bool × MemorySink
  memory_send event sink =
      let events = sink.events ++ (event ∷ []) in
      (true, record sink { events = drop (length events - sink.max_size) events })

  -- `send_batch` of `BaseTelemetrySink`, which sends the events one by one.
  unfoldable pub memory_send_batch : List (AuditEvent F) → MemorySink → ℕ × MemorySink
  unfolding memory_send
  memory_send_batch [] sink = (0, sink)
  memory_send_batch (event ∷ events) sink =
      let sent = memory_send event sink in
      let rest = memory_send_batch events sent.1 in (if sent.0 then suc rest.0 else rest.0, rest.1)

  unfoldable pub clear : MemorySink → MemorySink
  clear sink = record sink { events = [] }

  -- `if tenant_id:`
  abbrev pub is_wanted : Option String → AuditEvent F → Bool
  is_wanted none event = true
  is_wanted (some tenant_id) event =
      if str_eq tenant_id "" then true else str_eq event.tenant_id tenant_id

  -- `evs[-limit:]`
  unfoldable pub last_events : ℤ → List (AuditEvent F) → List (AuditEvent F)
  last_events (pos zero) events = events
  last_events (pos (suc n)) events = drop (length events - suc n) events
  last_events (negsuc n) events = drop (suc n) events

  unfoldable pub get_events : Host F → ℤ → Option String → MemorySink → List (Fields F.Float)
  unfolding last_events to_dict
  get_events H limit tenant_id sink =
      map (to_dict F H) (reverse (last_events limit (keep (is_wanted tenant_id) sink.events)))
