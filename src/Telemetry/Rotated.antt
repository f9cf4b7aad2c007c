-- ===== src/Telemetry/Rotated.antt =====
-- What the rotation of a `FileSink` keeps of the log.
use soc2_sentinel.Base.{
  ℕ, ◌-◌, ◌≤◌, List, [], ◌∷◌, ◌++◌, Option, none, some, map, ◌≡◌, refl, sym, ap, subst, ◌∙◌, ◌⊎◌,
  inl, inr, Option-cases, if-both, ltb,
}
use soc2_sentinel.Base.{if◌then◌else◌}
use mathlib.Core.List.{append_assoc}
use soc2_sentinel.Python.{ok, Floats}
use soc2_sentinel.Telemetry.{
  AuditEvent, Host, Lines, lines_of, FileSink, rotate_if_needed, line_of, append_events,
  file_send_batch,
}
use soc2_sentinel.Telemetry.Rotation.{
  history, rotated, IsKept, rotated-backups, history-append_lines,
}

module _ (F : Floats) (H : Host F) (size : Lines → ℕ) where
  abbrev log : FileSink F H size → Lines
  log sink = history sink.backup_count sink.files

  -- The sink after a rotation, or after none.
  abbrev IsRotated : FileSink F H size → FileSink F H size → Type 0
  IsRotated before after =
      IsKept (lines_of (before.files before.backup_count)) (log before) (log after)
      × (after.as_json ≡ before.as_json)
      × (after.backup_count ≡ before.backup_count)

  rotate_if_needed-IsRotated :
      (sink : FileSink F H size)
      → 1 ≤ sink.backup_count
      → IsRotated sink (rotate_if_needed F H size sink)
  unfolding rotate_if_needed rotated
  rotate_if_needed-IsRotated sink e = elim (Option-cases (sink.files 0)) [
    | inl h ↦ subst (IsRotated sink) (sym (case h)) (([], refl, inl refl), refl, refl)
    | inr (live, h) ↦ subst (IsRotated sink) (sym (case h)) (
        if-both (IsRotated sink) (ltb (size live) sink.max_bytes)
          (λ _. (([], refl, inl refl), refl, refl))
          (λ _. (rotated-backups sink.backup_count sink.files e, refl, refl)))
  ]
    where
      case :
          {o : Option Lines}
          → sink.files 0 ≡ o
          → rotate_if_needed F H size sink ≡ elim o [
            | none ↦ sink
            | some live ↦
                if ltb (size live) sink.max_bytes
                then sink
                else record sink { files = rotated (sink.backup_count - 1) sink.files }
          ]
      case h =
          ap
            (λ o. elim o [
              | none ↦ sink
              | some live ↦
                  if ltb (size live) sink.max_bytes
                  then sink
                  else record sink { files = rotated (sink.backup_count - 1) sink.files }
            ])
            h

  -- With a backup at least, a batch that is written is at the end of the log, and before it is the log as
  -- it was, from which nothing or the oldest backup is gone.
  pub file_send_batch-kept :
      (event : AuditEvent F) (events : List (AuditEvent F)) (sink : FileSink F H size)
      → 1 ≤ sink.backup_count
      → (dropped : Lines) × (dropped
            ++ log (file_send_batch F H size (ok tt) (event ∷ events) sink).1
          ≡ log sink ++ map (line_of F H size sink.as_json) (event ∷ events))
        × ((dropped ≡ []) ⊎ (dropped ≡ lines_of (sink.files sink.backup_count)))
  unfolding file_send_batch append_events
  file_send_batch-kept event events sink e =
      let ((dropped, kept, or), json, count) = rotate_if_needed-IsRotated sink e in
      let rotated_sink = rotate_if_needed F H size sink in
      let lines = map (line_of F H size rotated_sink.as_json) (event ∷ events) in
      (
        dropped,
        ap (λ ls. dropped ++ ls)
              (history-append_lines rotated_sink.backup_count lines rotated_sink.files)
            ∙ sym (append_assoc dropped (log rotated_sink) lines)
            ∙ ap (λ ls. ls ++ lines) kept
            ∙ ap (λ b. log sink ++ map (line_of F H size b) (event ∷ events)) json,
        or,
      )
