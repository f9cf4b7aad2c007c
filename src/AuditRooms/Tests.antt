-- ===== src/AuditRooms/Tests.antt =====
-- The theorems about sentinel/audit_room.py for one room and one day.
use soc2_sentinel.Base.{
  String, ◌<>◌, true, false, [], ◌∷◌, Option, none, some, codes, inr, arith, ◌≡◌, refl, str_eq, All,
  if◌then◌else◌,
}
use soc2_sentinel.Base.Int.{pos}
use soc2_sentinel.Python.{ok, str, dict, end, field}
use soc2_sentinel.Python.Fixed.{fixed}
use soc2_sentinel.Vault.{file}
use soc2_sentinel.Integrity.{ManifestCodec}
use soc2_sentinel.AuditRooms.{
  Calendar, aware, AuditRoom, active, revoked, is_active, record_access, to_dict, Rooms, write_room,
  save_room, new_room, create_room, get_room, revoke_room, validate_access, criterion_of, Day,
  ControlRow, control_row,
}
use soc2_sentinel.AuditRooms.Filed.{IsFiled, save_room-IsFiled}
use soc2_sentinel.AuditRooms.Reached.{created, empty, next, Reached-IsFiled}
use soc2_sentinel.AuditRooms.Entered.{validate_access-granted_iff, revoke_room-denied}
use soc2_sentinel.AuditRooms.Satisfied.{IsCovered, control_row-satisfied}

abbrev calendar : Calendar
calendar = record {
  parse = λ text. some (aware 100);
  isoformat = λ now. "now";
  year_later = λ now. none;
}

abbrev room : AuditRoom
room = record {
  room_id = codes "r-1";
  title = "Audit";
  auditor_email = "ada@example.com";
  period_start = "2026-01-01";
  period_end = "2026-03-31";
  created_at = "now";
  expires_at = "later";
  status = active;
  access_token = "secret";
  controls_in_scope = "CC6.1" ∷ [];
  evidence_dates = "2026-02-01" ∷ [];
  vault_block_hashes = [];
  notes = "";
  access_logs = [];
}

abbrev no_rooms : Rooms
no_rooms = λ name. none

abbrev stored : AuditRoom → Rooms → Rooms
stored r rooms = write_room (codes "r-1") (to_dict true r) rooms

abbrev entered_room : AuditRoom
entered_room = record_access calendar 7 "10.0.0.1" "browser" room

abbrev closed_room : AuditRoom
closed_room = record room { status = revoked }

no_rooms-IsFiled : IsFiled no_rooms
no_rooms-IsFiled name found id h k = cc

validate_access-granted_iff_example :
    validate_access calendar 7 "new"
      (codes "r-1")
      "secret"
      "10.0.0.1"
      "browser"
      (stored room no_rooms)
    ≡ ok ((true, some entered_room), stored entered_room (stored room no_rooms))
unfolding get_room is_active save_room record_access write_room
validate_access-granted_iff_example =
    (validate_access-granted_iff calendar 7 "new" (codes "r-1") "secret" "10.0.0.1" "browser"
        (stored room no_rooms) entered_room (stored entered_room (stored room no_rooms))).1
      (room, (refl, refl, inr (inr (100, refl, omega arith)), refl, refl, refl), refl, refl)

revoke_room-denied_example :
    validate_access calendar 7 "new"
      (codes "r-1")
      "secret"
      "10.0.0.1"
      "browser"
      (stored closed_room (stored room no_rooms))
    ≡ ok ((false, none), stored closed_room (stored room no_rooms))
unfolding revoke_room save_room write_room
revoke_room-denied_example =
    revoke_room-denied calendar 7 "now" "fresh" "new" (codes "r-1") (codes "r-1") "secret"
      "10.0.0.1" "browser" (stored room no_rooms) (stored closed_room (stored room no_rooms))
      (save_room-IsFiled room no_rooms (stored room no_rooms) refl no_rooms-IsFiled) refl refl

Reached-IsFiled_example : IsFiled (
    stored
      (new_room calendar 7 "secret"
        ("2026-02-01" ∷ [])
        []
        "Audit"
        "ada@example.com"
        "2026-01-01"
        "2026-03-31"
        none
        ""
        (codes "r-1")
        86_407)
      no_rooms)
unfolding create_room
Reached-IsFiled_example = Reached-IsFiled calendar _ (
    next empty (
      created 7 "secret" ("2026-02-01" ∷ []) [] (codes "r-1") "Audit" "ada@example.com" "2026-01-01"
        "2026-03-31" (pos 1) none "" _ _ refl))

abbrev digest : String → String
digest s = s <> "#"

abbrev codec : ManifestCodec fixed
codec = record {
  loads = λ text. some (dict (field "artifacts" (dict (field "report.json" (str "{}#") end)) end));
  dumps = λ d. "manifest";
  canonical_json = λ d. "artifacts";
  hmac_sign = λ secret content. "f00d";
}

-- Every folder of every day holds a report and its manifest.
abbrev days : String → Option Day
days date = some (λ folder. record {
  at = λ name.
      if str_eq name "report.json"
      then some (file "{}")
      else if str_eq name "manifest.json"
      then some (file "manifest")
      else none;
  files = "report.json" ∷ "manifest.json" ∷ [];
})

abbrev satisfied_row : ControlRow
satisfied_row = record {
  control_id = "CC6.1";
  title = "Restricts Logical Access to Infrastructure and Systems";
  category = "Logical and Physical Access";
  evidence_count = 1;
  evidence_status = "SATISFIED";
  artifacts =
      record {
        date = "2026-02-01";
        collector = "iam_access_review";
        file_name = "2026-02-01/CC6.1/report.json";
        sha256 = "{}#";
      }
      ∷ [];
}

control_row-satisfied_example :
    All
      (IsCovered fixed codec digest "" days ("2026-02-01" ∷ []))
      (criterion_of "CC6.1").required_collectors
unfolding control_row
control_row-satisfied_example =
    control_row-satisfied fixed codec digest "" days ("2026-02-01" ∷ []) "CC6.1" satisfied_row refl
      refl
