-- ===== src/Telemetry/File.antt =====
-- `FileSink` of sentinel/telemetry.py. The live file is number 0 and the backup with the suffix `.i` is
-- number i. What `open` and the writes do is an argument: an error of theirs leaves the files as they
-- were before the writes. Moving files succeeds.
use soc2_sentinel.Base.{
  ℕ, zero, suc, ◌-◌, String, Bool, true, false, List, [], ◌∷◌, ◌++◌, Option, none, some, map,
  length, ltb, ◌==◌, if◌then◌else◌,
}
use soc2_sentinel.Python.{Py, ok, raise, Floats, dict}
use soc2_sentinel.Telemetry.Event.{AuditEvent, Host, to_dict, to_rfc5424}

abbrev pub Lines : Type 0
Lines = List String

-- Which files there are, and their lines.
abbrev pub Files : Type 0
Files = ℕ → Option Lines

abbrev pub lines_of : Option Lines → Lines
lines_of none = []
lines_of (some lines) = lines

-- `if sfn.exists(): if dfn.exists(): dfn.unlink(); sfn.rename(dfn)`
unfoldable pub move : ℕ → ℕ → Files → Files
move source target files = elim (files source) [
  | none ↦ files
  | some lines ↦ λ i. if i == target then some lines else if i == source then none else files i
]

-- The loop over the backups, from this one down to the first.
unfoldable pub shift_backups : ℕ → Files → Files
unfolding move
shift_backups zero files = files
shift_backups (suc i) files = shift_backups i (move (suc i) (suc (suc i)) files)

unfoldable pub append_lines : Lines → Files → Files
append_lines lines files = λ i. if i == 0 then some (lines_of (files 0) ++ lines) else files i

module _ (F : Floats) (H : Host F) (size : Lines → ℕ) where
  pub record FileSink : Type 0 where
    pub as_json : Bool
    pub max_bytes : ℕ
    pub backup_count : ℕ
    pub files : Files

  unfoldable pub rotate_if_needed : FileSink → FileSink
  unfolding move shift_backups
  rotate_if_needed sink = elim (sink.files 0) [
    | none ↦ sink
    | some live ↦
        if ltb (size live) sink.max_bytes
        then sink
        else record sink { files = move 0 1 (shift_backups (sink.backup_count - 1) sink.files) }
  ]

  unfoldable pub line_of : Bool → AuditEvent F → String
  unfolding to_dict to_rfc5424
  line_of as_json event =
      if as_json then H.dumps (dict (to_dict F H event)) else to_rfc5424 F H event

  -- `open(..., "a")` and the writes.
  unfoldable pub append_events : Py (Unit {0}) → List (AuditEvent F) → FileSink → Bool × FileSink
  unfolding append_lines line_of
  append_events (ok _) events sink =
      (true, record sink { files = append_lines (map (line_of sink.as_json) events) sink.files })
  append_events (raise e) events sink = (false, sink)

  unfoldable pub file_send : Py (Unit {0}) → AuditEvent F → FileSink → Bool × FileSink
  unfolding rotate_if_needed append_events
  file_send opened event sink = append_events opened (event ∷ []) (rotate_if_needed sink)

  unfoldable pub file_send_batch : Py (Unit {0}) → List (AuditEvent F) → FileSink → ℕ × FileSink
  unfolding rotate_if_needed append_events
  file_send_batch opened [] sink = (0, sink)
  file_send_batch opened (event ∷ events) sink =
      let written = append_events opened (event ∷ events) (rotate_if_needed sink) in
      (if written.0 then length (event ∷ events) else 0, written.1)
