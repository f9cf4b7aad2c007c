-- ===== src/AuditRooms/Manager.antt =====
-- `AuditRoomManager` of sentinel/audit_room.py: its rooms, which are files named after their sanitized
-- ids, so that the path of a file stands in the folder of rooms whatever the id.
use soc2_sentinel.Base.{
  ℕ, String, ◌<>◌, Bool, true, false, ◌&&◌, ◌||◌, List, [], ◌∷◌, map, Option, none, some, Codes,
  codes, str_eq, ltb, leb, le_text, ◌==◌, keep, if◌then◌else◌,
}
use soc2_sentinel.Base.Int.{ℤ, pos, negsuc, ◌+ℤ◌, ◌*ℤ◌, leb_ℤ}
use soc2_sentinel.Python.{Py, ok, raise, value_error, overflow_error, type_error, ◌>>=◌}
use Prim.Native.Char.{code}
use soc2_sentinel.Auth.{eq_codes}
use soc2_sentinel.Vault.{sorted}
use soc2_sentinel.AuditRooms.Catalog.{catalog_keys}
use soc2_sentinel.AuditRooms.Room.{
  Calendar, AuditRoom, active, revoked, is_active, record_access, RoomData, to_dict, from_dict,
}

-- A file that holds a JSON dictionary, or anything else.
pub data RoomFile : Type 0 where
  contents : RoomData → RoomFile
  unreadable : RoomFile

abbrev pub Rooms : Type 0
Rooms = Codes → Option RoomFile

-- A letter, a digit, `_` or `-`.
abbrev pub is_room_char : ℕ → Bool
is_room_char c =
    leb b'a' c && leb c b'z'
    || leb b'A' c && leb c b'Z'
    || leb b'0' c && leb c b'9'
    || c == b'_'
    || c == b'-'

-- What is stripped at the ends are no such characters.
unfoldable pub sanitize_room_id : Codes → Py Codes
sanitize_room_id room_id = elim (keep is_room_char room_id) [
  | [] ↦ raise value_error
  | c ∷ cs ↦ ok (c ∷ cs)
]

unfoldable pub write_room : Codes → RoomData → Rooms → Rooms
unfolding eq_codes
write_room name room rooms =
    λ other. if eq_codes other name then some (contents room) else rooms other

unfoldable pub save_room : AuditRoom → Rooms → Py Rooms
unfolding sanitize_room_id write_room to_dict
save_room room rooms =
    sanitize_room_id room.room_id >>= λ name. ok (write_room name (to_dict true room) rooms)

-- `text.split("T")[0]`
unfoldable pub before_t : String → String
before_t String.[] = String.[]
before_t (String.◌∷◌ c s) =
    let rest = before_t s in if code c == b'T' then String.[] else String.◌∷◌ c rest

abbrev pub is_in_period : String → String → String → Bool
is_in_period period_start period_end date = le_text period_start date && le_text date period_end

-- `secrets.compare_digest` of two texts, which takes ASCII only.
abbrev pub is_ascii : Codes → Bool
is_ascii [] = true
is_ascii (c ∷ cs) = ltb c 128 && is_ascii cs

unfoldable pub compare_digest : String → String → Py Bool
compare_digest a b =
    if is_ascii (codes a) && is_ascii (codes b) then ok (str_eq a b) else raise type_error

-- The outcome of an access, and the rooms after it.
abbrev pub Answer : Type 0
Answer = (Bool × Option AuditRoom) × Rooms

module _ (K : Calendar) where
  -- A moment is counted from `datetime.min`; OverflowError before it and after `datetime.max`.
  abbrev pub in_range : ℤ → Py ℕ
  in_range (pos moment) = if leb moment 315_537_897_599 then ok moment else raise overflow_error
  in_range (negsuc _) = raise overflow_error

  -- `now.replace(year=now.year + 1)` from 365 days on, and else `now + timedelta(days=expires_days)`,
  -- which is in the past for a negative number of days.
  unfoldable pub expiry : ℕ → ℤ → Py ℕ
  unfolding ◌+ℤ◌ ◌*ℤ◌
  expiry now expires_days =
      if leb_ℤ (pos 365) expires_days
      then elim (K.year_later now) [ none ↦ raise value_error | some later ↦ ok later ]
      else in_range (pos now +ℤ expires_days *ℤ pos 86_400)

  abbrev pub or_list : Option (List String) → List String → List String
  or_list none default = default
  or_list (some []) default = default
  or_list (some (s ∷ ss)) default = s ∷ ss

  -- The room that `create_room` makes. The folders with evidence and
  -- the blocks of the vault, as timestamp and hash, are arguments.
  unfoldable pub new_room :
      ℕ
      → String
      → List String
      → List (String × String)
      → String
      → String
      → String
      → String
      → Option (List String)
      → String
      → Codes
      → ℕ
      → AuditRoom
  unfolding before_t catalog_keys sorted
  new_room now new_token folders blocks title auditor_email period_start period_end
        controls_in_scope notes sanitized_id exp =
      record {
        room_id = sanitized_id;
        title = title;
        auditor_email = auditor_email;
        period_start = period_start;
        period_end = period_end;
        created_at = K.isoformat now;
        expires_at = K.isoformat exp;
        status = active;
        access_token = new_token;
        controls_in_scope = or_list controls_in_scope catalog_keys;
        evidence_dates = keep (is_in_period period_start period_end) (sorted folders);
        vault_block_hashes =
            map (λ block. block.1)
              (keep (λ block. is_in_period period_start period_end (before_t block.0)) blocks);
        notes =
            if str_eq notes ""
            then "SOC 2 Type II Audit Room for window " <> (period_start <> (" to " <> period_end))
            else notes;
        access_logs = [];
      }

  -- The call, from what makes the room of its id and the time of its expiry.
  unfoldable pub create_with :
      ℕ → (Codes → ℕ → AuditRoom) → Codes → ℤ → Rooms → Py (AuditRoom × Rooms)
  unfolding sanitize_room_id expiry save_room
  create_with now make room_id expires_days rooms = do
    sanitized_id ← sanitize_room_id room_id
    exp ← expiry now expires_days
    rooms' ← save_room (make sanitized_id exp) rooms
    ok (make sanitized_id exp, rooms')

  unfoldable pub create_room :
      ℕ
      → String
      → List String
      → List (String × String)
      → Codes
      → String
      → String
      → String
      → String
      → ℤ
      → Option (List String)
      → String
      → Rooms
      → Py (AuditRoom × Rooms)
  unfolding new_room create_with
  create_room now new_token folders blocks room_id title auditor_email period_start period_end
        expires_days controls_in_scope notes rooms =
      create_with now
        (new_room now new_token folders blocks title auditor_email period_start period_end
          controls_in_scope notes)
        room_id expires_days rooms

  -- What `from_dict` makes of a file; an exception is logged.
  abbrev pub room_of : String → String → Option RoomFile → Option AuditRoom
  room_of now new_token none = none
  room_of now new_token (some unreadable) = none
  room_of now new_token (some (contents room)) = elim (from_dict now new_token room) [
    | ok r ↦ some r
    | raise _ ↦ none
  ]

  unfoldable pub get_room : String → String → Codes → Rooms → Option AuditRoom
  unfolding sanitize_room_id from_dict
  get_room now new_token room_id rooms = elim (sanitize_room_id room_id) [
    | ok name ↦ room_of now new_token (rooms name)
    | raise _ ↦ none
  ]

  abbrev pub revoke : Rooms → Option AuditRoom → Py (Bool × Rooms)
  revoke rooms none = ok (false, rooms)
  revoke rooms (some room) =
      save_room (record room { status = revoked }) rooms >>= λ rooms'. ok (true, rooms')

  unfoldable pub revoke_room : String → String → Codes → Rooms → Py (Bool × Rooms)
  unfolding get_room save_room
  revoke_room now new_token room_id rooms = revoke rooms (get_room now new_token room_id rooms)

  -- From where the token is compared.
  abbrev pub enter : ℕ → String → String → AuditRoom → Rooms → Bool → Py Answer
  enter now ip_address user_agent room rooms false = ok ((false, none), rooms)
  enter now ip_address user_agent room rooms true =
      let logged = record_access K now ip_address user_agent room in
      save_room logged rooms >>= λ rooms'. ok ((true, some logged), rooms')

  abbrev pub check_token : ℕ → String → String → String → AuditRoom → Rooms → Bool → Py Answer
  check_token now token ip_address user_agent room rooms false = ok ((false, none), rooms)
  check_token now token ip_address user_agent room rooms true =
      if str_eq token ""
      then ok ((false, none), rooms)
      else compare_digest room.access_token token >>= enter now ip_address user_agent room rooms

  abbrev pub admit : ℕ → String → String → String → Rooms → Option AuditRoom → Py Answer
  admit now token ip_address user_agent rooms none = ok ((false, none), rooms)
  admit now token ip_address user_agent rooms (some room) =
      is_active K now room >>= check_token now token ip_address user_agent room rooms

  unfoldable pub validate_access : ℕ → String → Codes → String → String → String → Rooms → Py Answer
  unfolding get_room is_active compare_digest record_access save_room
  validate_access now new_token room_id token ip_address user_agent rooms =
      admit now token ip_address user_agent rooms
        (get_room (K.isoformat now) new_token room_id rooms)
