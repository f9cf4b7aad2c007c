-- ===== src/Telemetry/Recent.antt =====
-- What a `MemorySink` holds and returns.
use soc2_sentinel.Base.{
  ℕ, suc, String, List, [], ◌∷◌, ◌++◌, map, Option, ◌≡◌, sym, ap, ◌∙◌, take, keep, reverse,
  take-take, reverse-drop, reverse-append, reverse-keep,
}
use soc2_sentinel.Base.Int.{pos}
use mathlib.Core.List.{append-nil, append_assoc}
use soc2_sentinel.Python.{Floats}
use soc2_sentinel.Telemetry.{
  AuditEvent, Host, MemorySink, memory_send, memory_send_batch, is_wanted, last_events, get_events,
  to_dict,
}

module _ (F : Floats) where
  -- The sink holds the newest of the events sent, as many as it has room for, in the order in which they
  -- were sent.
  abbrev pub IsRecent : List (AuditEvent F) → MemorySink F → Type 0
  IsRecent sent sink = reverse sink.events ≡ take sink.max_size (reverse sent)

  memory_send-IsRecent :
      (sent : List (AuditEvent F)) (event : AuditEvent F) (sink : MemorySink F)
      → IsRecent sent sink
      → IsRecent (sent ++ (event ∷ [])) (memory_send F event sink).1
  unfolding memory_send
  memory_send-IsRecent sent event sink h =
      reverse-drop sink.max_size (sink.events ++ (event ∷ []))
      ∙ ap (take sink.max_size) (reverse-append sink.events (event ∷ []) ∙ ap (λ es. event ∷ es) h)
      ∙ take-take sink.max_size (reverse sent) event
      ∙ ap (take sink.max_size) (sym (reverse-append sent (event ∷ [])))

  -- A memory sink that holds the newest of the events sent, as many as its greatest length, holds the
  -- newest of all of them after a batch.
  pub memory_send_batch-IsRecent :
      (sent events : List (AuditEvent F)) (sink : MemorySink F)
      → IsRecent sent sink
      → IsRecent (sent ++ events) (memory_send_batch F events sink).1
  unfolding memory_send_batch
  memory_send_batch-IsRecent sent [] sink h = rw (append-nil sent) h
  memory_send_batch-IsRecent sent (event ∷ events) sink h =
      rw (sym (append_assoc sent (event ∷ []) events)) (
        memory_send_batch-IsRecent (sent ++ (event ∷ [])) events (memory_send F event sink).1
          (memory_send-IsRecent sent event sink h))

  -- For a positive limit, `get_events` of a sink that holds the newest of the events sent returns, newest
  -- first, the first so many of those it holds that are of the wanted tenant.
  pub get_events-newest_first :
      (H : Host F) (n : ℕ) (tenant_id : Option String) (sent : List (AuditEvent F))
      (sink : MemorySink F)
      → IsRecent sent sink
      → get_events F H (pos (suc n)) tenant_id sink
        ≡ map
            (to_dict F H)
            (take (suc n) (keep (is_wanted F tenant_id) (take sink.max_size (reverse sent))))
  unfolding get_events last_events
  get_events-newest_first H n tenant_id sent sink h = ap (map (to_dict F H)) (
      reverse-drop (suc n) (keep (is_wanted F tenant_id) sink.events)
      ∙ ap (take (suc n))
          (reverse-keep (is_wanted F tenant_id) sink.events ∙ ap (keep (is_wanted F tenant_id)) h))
