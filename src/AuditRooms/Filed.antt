-- ===== src/AuditRooms/Filed.antt =====
-- Room files: each stands under the name that the id in it has, and a saved room is read back.
use soc2_sentinel.Base.{
  String, true, Option, none, some, Codes, ◌≡◌, refl, sym, ap, subst, ◌∙◌, Bool-cases,
  some-injective, inl, inr, if◌then◌else◌,
}
use soc2_sentinel.Python.{
  Py, ok, raise, Py-cases, Returns, returned, raised, Returns-ok, Returns-bind, Returns-then,
  >>=-eq-ok, ok-injective, required,
}
use soc2_sentinel.Auth.{eq_codes}
use soc2_sentinel.Auth.Parts.{eq_codes_refl, eq_codes-eq}
use soc2_sentinel.AuditRooms.{
  Calendar, AuditRoom, AuditRoomStatus, active, expired, revoked, status_value, status_of, RoomData,
  to_dict, from_dict, contents, unreadable, RoomFile, Rooms, sanitize_room_id, write_room,
  save_room, room_of, get_room,
}

-- A file that holds a room with an id stands under the sanitized id.
abbrev pub IsFiled : Rooms → Type 0
IsFiled rooms =
    (name : Codes) (room : RoomData) (id : Codes)
    → rooms name ≡ some (contents room)
    → room.room_id ≡ some id
    → sanitize_room_id id ≡ ok name

pub save_room-eq :
    (room : AuditRoom) (rooms rooms' : Rooms)
    → save_room room rooms ≡ ok rooms'
    → (name : Codes) × (sanitize_room_id room.room_id ≡ ok name)
      × (rooms' ≡ write_room name (to_dict true room) rooms)
unfolding save_room
save_room-eq room rooms rooms' h =
    let (name, sanitized, written) =
      >>=-eq-ok (sanitize_room_id room.room_id)
        (λ name. ok (write_room name (to_dict true room) rooms)) h in
    (name, sanitized, sym (ok-injective _ _ written))

pub write_room-at :
    (name : Codes) (room : RoomData) (rooms : Rooms)
    → write_room name room rooms name ≡ some (contents room)
unfolding write_room
write_room-at name room rooms = rw (eq_codes_refl name) refl

-- The id in a file.
abbrev id_of : Option RoomFile → Option Codes
id_of none = none
id_of (some unreadable) = none
id_of (some (contents room)) = room.room_id

write_room-IsFiled :
    (name : Codes) (room : AuditRoom) (rooms : Rooms)
    → sanitize_room_id room.room_id ≡ ok name
    → IsFiled rooms
    → IsFiled (write_room name (to_dict true room) rooms)
unfolding write_room to_dict
write_room-IsFiled name room rooms sanitized filed other found id h k =
    let written : Option RoomFile = some (contents (to_dict true room)) in
    elim (Bool-cases (eq_codes other name)) [
      | inl e ↦
          let same =
            ap (λ b. id_of (if b then written else rooms other)) (sym e) ∙ ap id_of h ∙ k in
          ap sanitize_room_id (sym (some-injective room.room_id id same))
          ∙ sanitized
          ∙ ap ok (sym (eq_codes-eq other name e))
      | inr e ↦ filed other found id (ap (λ b. if b then written else rooms other) (sym e) ∙ h) k
    ]

pub save_room-IsFiled :
    (room : AuditRoom) (rooms rooms' : Rooms)
    → save_room room rooms ≡ ok rooms'
    → IsFiled rooms
    → IsFiled rooms'
save_room-IsFiled room rooms rooms' h filed =
    let (name, sanitized, written) = save_room-eq room rooms rooms' h in
    subst IsFiled (sym written) (write_room-IsFiled name room rooms sanitized filed)

status_of-status_value : (status : AuditRoomStatus) → status_of (status_value status) ≡ status
unfolding status_of
status_of-status_value active = refl
status_of-status_value expired = refl
status_of-status_value revoked = refl

from_dict-to_dict :
    (now new_token : String) (room : AuditRoom)
    → from_dict now new_token (to_dict true room) ≡ ok room
unfolding from_dict to_dict
from_dict-to_dict now new_token room =
    ap (λ status. ok (record room { status = status })) (status_of-status_value room.status)

module _ (K : Calendar) (now new_token : String) where
  get_room-at :
      (id : Codes) (rooms : Rooms) (name : Codes)
      → sanitize_room_id id ≡ ok name
      → get_room K now new_token id rooms ≡ room_of K now new_token (rooms name)
  unfolding get_room
  get_room-at id rooms name h =
      ap (λ r. elim r [ ok name ↦ room_of K now new_token (rooms name) | raise _ ↦ none ]) h

  -- A room that has been saved is read back under every id that is sanitized to the name of its own.
  pub get_room-save_room :
      (room : AuditRoom) (rooms rooms' : Rooms) (id : Codes)
      → save_room room rooms ≡ ok rooms'
      → sanitize_room_id id ≡ sanitize_room_id room.room_id
      → get_room K now new_token id rooms' ≡ some room
  unfolding get_room
  get_room-save_room room rooms rooms' id h same =
      let (name, sanitized, written) = save_room-eq room rooms rooms' h in
      get_room-at id rooms' name (same ∙ sanitized)
      ∙ ap (room_of K now new_token)
          (ap (λ r. r name) written ∙ write_room-at name (to_dict true room) rooms)
      ∙ ap (λ r. elim r [ ok r ↦ some r | raise _ ↦ none ]) (from_dict-to_dict now new_token room)

  room_of-eq :
      (file : Option RoomFile) (room : AuditRoom)
      → room_of K now new_token file ≡ some room
      → (read : RoomData) × (file ≡ some (contents read)) × (from_dict now new_token read ≡ ok room)
  room_of-eq none room h = cc
  room_of-eq (some unreadable) room h = cc
  room_of-eq (some (contents read)) room h = (read, refl, from (from_dict now new_token read) h)
    where
      from :
          (m : Py AuditRoom) → elim m [ ok r ↦ some r | raise _ ↦ none ] ≡ some room → m ≡ ok room
      from (ok r) h = ap ok (some-injective r room h)
      from (raise e) h = cc

  pub get_room-eq :
      (id : Codes) (rooms : Rooms) (room : AuditRoom)
      → get_room K now new_token id rooms ≡ some room
      → (name : Codes) × (sanitize_room_id id ≡ ok name)
        × ((file : RoomData) × (rooms name ≡ some (contents file))
            × (from_dict now new_token file ≡ ok room))
  unfolding get_room
  get_room-eq id rooms room h = elim (Py-cases (sanitize_room_id id)) [
    | inl (name, e) ↦
        (name, e, room_of-eq (rooms name) room (sym (get_room-at id rooms name e) ∙ h))
    | inr (x, e) ↦ absurd (
        none_not_some room (
          ap (λ r. elim r [ ok name ↦ room_of K now new_token (rooms name) | raise _ ↦ none ])
            (sym e)
          ∙ h))
  ]
    where
      none_not_some : (r : AuditRoom) → ¬ (none ≡ some r)
      none_not_some r h = cc

  from_dict-room_id :
      (file : RoomData) (room : AuditRoom)
      → from_dict now new_token file ≡ ok room
      → file.room_id ≡ some room.room_id
  unfolding from_dict
  from_dict-room_id file room h = Returns-ok (
      subst (Returns (λ r. file.room_id ≡ some r.room_id)) h (
        Returns-bind _ (there file.room_id) (λ id found.
          Returns-then (required file.title) _ (λ title.
            Returns-then (required file.period_start) _
              (λ start. Returns-then (required file.period_end) _ (λ last. returned found))))))
    where
      there : (o : Option Codes) → Returns (λ id. o ≡ some id) (required o)
      there none = raised
      there (some id) = returned refl

  -- In a store of rooms that are under their names, so is what is read.
  pub get_room-filed :
      (id : Codes) (rooms : Rooms) (room : AuditRoom)
      → IsFiled rooms
      → get_room K now new_token id rooms ≡ some room
      → sanitize_room_id room.room_id ≡ sanitize_room_id id
  get_room-filed id rooms room filed h =
      let (name, sanitized, (file, found, read)) = get_room-eq id rooms room h in
      filed name file room.room_id found (from_dict-room_id file room read) ∙ sym sanitized
