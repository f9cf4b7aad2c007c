-- ===== src/AuditRooms/Room.antt =====
-- `AuditRoom` of sentinel/audit_room.py. A moment is a number of seconds since
-- `datetime.min`, and what the code uses of
-- `datetime` is a parameter. A room file is a JSON dictionary whose fields, where they are there, have the
-- types that `to_dict` gives them.
use soc2_sentinel.Base.{
  ℕ, String, Bool, true, false, List, [], ◌∷◌, ◌++◌, Option, none, some, Codes, str_eq, ltb,
  if◌then◌else◌,
}
use soc2_sentinel.Python.{Py, ok, raise, type_error, ◌>>=◌, required, get_or}
use soc2_sentinel.AuditRooms.Catalog.{catalog_keys}

pub data AuditRoomStatus : Type 0 where
  active expired revoked : AuditRoomStatus

abbrev pub status_value : AuditRoomStatus → String
status_value active = "ACTIVE"
status_value expired = "EXPIRED"
status_value revoked = "REVOKED"

-- `AuditRoomStatus(text)`, or else active.
unfoldable pub status_of : String → AuditRoomStatus
status_of text =
    if str_eq text "ACTIVE"
    then active
    else if str_eq text "EXPIRED"
    then expired
    else if str_eq text "REVOKED"
    then revoked
    else active

-- A datetime with and without a time zone.
pub data Moment : Type 0 where
  aware naive : ℕ → Moment

pub record Calendar : Type 0 where
  -- `datetime.fromisoformat(text.replace("Z", "+00:00"))`; none for a ValueError.
  pub parse : String → Option Moment
  pub isoformat : ℕ → String
  -- `now.replace(year=now.year + 1)`; none for a ValueError.
  pub year_later : ℕ → Option ℕ

pub record AccessLog : Type 0 where
  pub timestamp : String
  pub ip_address : String
  pub user_agent : String

pub record AuditRoom : Type 0 where
  pub room_id : Codes
  pub title : String
  pub auditor_email : String
  pub period_start : String
  pub period_end : String
  pub created_at : String
  pub expires_at : String
  pub status : AuditRoomStatus
  pub access_token : String
  pub controls_in_scope : List String
  pub evidence_dates : List String
  pub vault_block_hashes : List String
  pub notes : String
  pub access_logs : List AccessLog

module _ (K : Calendar) where
  abbrev pub is_before_expiry : ℕ → Option Moment → Py Bool
  is_before_expiry now none = ok true
  is_before_expiry now (some (naive _)) = raise type_error
  is_before_expiry now (some (aware expiry)) = ok (if ltb expiry now then false else true)

  unfoldable pub is_active : ℕ → AuditRoom → Py Bool
  is_active now room = elim room.status [
    | active ↦
        if str_eq room.expires_at ""
        then ok true
        else is_before_expiry now (K.parse room.expires_at)
    | expired ↦ ok false
    | revoked ↦ ok false
  ]

  unfoldable pub record_access : ℕ → String → String → AuditRoom → AuditRoom
  record_access now ip_address user_agent room = record room {
    access_logs =
        room.access_logs
        ++ (record { timestamp = K.isoformat now; ip_address = ip_address; user_agent = user_agent }
            ∷ []);
  }

pub record RoomData : Type 0 where
  pub room_id : Option Codes
  pub title : Option String
  pub auditor_email : Option String
  pub period_start : Option String
  pub period_end : Option String
  pub created_at : Option String
  pub expires_at : Option String
  pub status : Option String
  pub access_token : Option String
  pub controls_in_scope : Option (List String)
  pub evidence_dates : Option (List String)
  pub vault_block_hashes : Option (List String)
  pub notes : Option String
  pub access_logs : Option (List AccessLog)

-- `to_dict(include_token)`
unfoldable pub to_dict : Bool → AuditRoom → RoomData
to_dict include_token room = record {
  room_id = some room.room_id;
  title = some room.title;
  auditor_email = some room.auditor_email;
  period_start = some room.period_start;
  period_end = some room.period_end;
  created_at = some room.created_at;
  expires_at = some room.expires_at;
  status = some (status_value room.status);
  access_token = if include_token then some room.access_token else none;
  controls_in_scope = some room.controls_in_scope;
  evidence_dates = some room.evidence_dates;
  vault_block_hashes = some room.vault_block_hashes;
  notes = some room.notes;
  access_logs = some room.access_logs;
}

-- The time and the token that stand in for a missing one are arguments.
unfoldable pub from_dict : String → String → RoomData → Py AuditRoom
unfolding status_of catalog_keys
from_dict now new_token data_fields = do
  room_id ← required data_fields.room_id
  title ← required data_fields.title
  period_start ← required data_fields.period_start
  period_end ← required data_fields.period_end
  ok (record {
    room_id = room_id;
    title = title;
    auditor_email = get_or data_fields.auditor_email "auditor@enterprise.com";
    period_start = period_start;
    period_end = period_end;
    created_at = get_or data_fields.created_at now;
    expires_at = get_or data_fields.expires_at "";
    status = status_of (get_or data_fields.status "ACTIVE");
    access_token = get_or data_fields.access_token new_token;
    controls_in_scope = get_or data_fields.controls_in_scope catalog_keys;
    evidence_dates = get_or data_fields.evidence_dates [];
    vault_block_hashes = get_or data_fields.vault_block_hashes [];
    notes = get_or data_fields.notes "";
    access_logs = get_or data_fields.access_logs [];
  })
