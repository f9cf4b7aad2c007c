-- ===== src/Telemetry/Collected.antt =====
-- A `TelemetryManager` with its memory sink: from the queue to what the dashboard reads.
use soc2_sentinel.Base.{ℕ, ◌*◌, ◌≤◌, true, List, [], ◌∷◌, ◌++◌, ◌≡◌, sym, subst, length, flatten}
use mathlib.Core.List.{append-nil, append_assoc}
use soc2_sentinel.Python.{ok, Floats}
use soc2_sentinel.Telemetry.{
  AuditEvent, MemorySink, memory_send, memory_send_batch, SinkClass, Manager, is_member, steps,
}
use soc2_sentinel.Telemetry.Sinks.{IsDistinct}
use soc2_sentinel.Telemetry.Recent.{IsRecent, memory_send_batch-IsRecent}
use soc2_sentinel.Telemetry.Drained.{busy, twice, delivered, steps-IsDrained}

module _ (F : Floats) where
  abbrev pub memory_class : SinkClass (AuditEvent F) (MemorySink F)
  memory_class = record {
    send = λ event sink. let sent = memory_send F event sink in (ok sent.0, sent.1);
    send_batch = λ events sink. let sent = memory_send_batch F events sink in (ok sent.0, sent.1);
    close = λ sink. sink;
  }

  -- The manager with these events in the queue after so many passes of the worker.
  abbrev pub passed :
      ℕ
      → List (AuditEvent F)
      → Manager (AuditEvent F) (MemorySink F) memory_class
      → Manager (AuditEvent F) (MemorySink F) memory_class
  passed n events m =
      steps (AuditEvent F) (MemorySink F) memory_class
        (twice (AuditEvent F) (MemorySink F) memory_class n)
        (busy (AuditEvent F) (MemorySink F) memory_class events m)

  delivered-IsRecent :
      (batches : List (List (AuditEvent F))) (sent : List (AuditEvent F)) (sink : MemorySink F)
      → IsRecent F sent sink
      → IsRecent F
          (sent ++ flatten batches)
          (delivered (AuditEvent F) (MemorySink F) memory_class sink batches)
  delivered-IsRecent [] sent sink h = subst (λ es. IsRecent F es sink) (sym (append-nil sent)) h
  delivered-IsRecent (batch ∷ batches) sent sink h =
      let after = memory_send_batch F batch sink in
      subst
        (λ es. IsRecent F es (delivered (AuditEvent F) (MemorySink F) memory_class after.1 batches))
        (append_assoc sent batch (flatten batches))
        (delivered-IsRecent batches (sent ++ batch) after.1
          (memory_send_batch-IsRecent F sent batch sink h))

  -- Where a registered memory sink of a running manager holds the newest of the events sent to it, and the
  -- queue holds at most 50 n events, after n passes of the worker the sink holds the newest of those and
  -- these together. The sinks are registered without repetition and are memory sinks, and the worker is
  -- before its test.
  pub steps-IsRecent :
      (n : ℕ) (sent events : List (AuditEvent F))
      (m : Manager (AuditEvent F) (MemorySink F) memory_class) (ref : ℕ)
      → IsDistinct m.sinks
      → is_member m.sinks ref ≡ true
      → length events ≤ 50 * n
      → IsRecent F sent (m.store ref)
      → IsRecent F (sent ++ events) ((passed n events m).store ref)
  steps-IsRecent n sent events m ref d member h recent =
      let (batches, all, same) =
        (steps-IsDrained (AuditEvent F) (MemorySink F) memory_class n events m ref d member h).1 in
      subst (λ es. IsRecent F (sent ++ es) ((passed n events m).store ref)) all
        (subst (IsRecent F (sent ++ flatten batches)) same
          (delivered-IsRecent batches sent (m.store ref) recent))
