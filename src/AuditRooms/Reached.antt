-- ===== src/AuditRooms/Reached.antt =====
-- The stores of rooms that the operations of sentinel/audit_room.py lead to.
use soc2_sentinel.Base.{
  ℕ, String, Bool, true, false, List, Option, none, some, Codes, ◌≡◌, subst, str_eq, if-both,
}
use soc2_sentinel.Base.Int.{ℤ}
use soc2_sentinel.Python.{
  ok, ◌>>=◌, Returns, returned, Returns-self, Returns-weaken, Returns-bind, Returns-then,
  Returns-ok,
}
use soc2_sentinel.AuditRooms.{
  Calendar, AuditRoom, revoked, is_active, record_access, Rooms, sanitize_room_id, save_room,
  compare_digest, expiry, new_room, create_with, create_room, get_room, revoke, revoke_room, enter,
  check_token, admit, validate_access,
}
use soc2_sentinel.AuditRooms.Filed.{IsFiled, save_room-IsFiled}

module _ (K : Calendar) where
  -- A store of rooms after a call that returned, with whatever arguments.
  pub data Step (rooms : Rooms) : Rooms → Type 0 where
    created :
        (now : ℕ) (new_token : String) (folders : List String) (blocks : List (String × String))
        (room_id : Codes) (title auditor_email period_start period_end : String) (expires_days : ℤ)
        (controls_in_scope : Option (List String)) (notes : String) (room : AuditRoom)
        (rooms' : Rooms)
        → create_room K now new_token folders blocks room_id title auditor_email period_start
            period_end expires_days controls_in_scope notes rooms
          ≡ ok (room, rooms')
        → Step rooms rooms'
    revoked_by :
        (now new_token : String) (room_id : Codes) (done : Bool) (rooms' : Rooms)
        → revoke_room K now new_token room_id rooms ≡ ok (done, rooms')
        → Step rooms rooms'
    accessed :
        (now : ℕ) (new_token : String) (room_id : Codes) (token ip_address user_agent : String)
        (answer : Bool × Option AuditRoom) (rooms' : Rooms)
        → validate_access K now new_token room_id token ip_address user_agent rooms
          ≡ ok (answer, rooms')
        → Step rooms rooms'

  -- From no rooms by such calls.
  pub data Reached : Rooms → Type 0 where
    empty : Reached (λ name. none)
    next : {rooms rooms' : Rooms} → Reached rooms → Step rooms rooms' → Reached rooms'

  module _ (rooms : Rooms) (filed : IsFiled rooms) where
    save_room-Filed : (room : AuditRoom) → Returns IsFiled (save_room room rooms)
    save_room-Filed room =
        Returns-weaken (λ rooms' h. save_room-IsFiled room rooms rooms' h filed)
          (Returns-self (save_room room rooms))

    create_with-Filed :
        (now : ℕ) (make : Codes → ℕ → AuditRoom) (room_id : Codes) (expires_days : ℤ)
        → Returns (λ r. IsFiled r.1) (create_with K now make room_id expires_days rooms)
    unfolding create_with
    create_with-Filed now make room_id expires_days =
        Returns-then (sanitize_room_id room_id) _ (λ id.
          Returns-then (expiry K now expires_days) _ (λ exp.
            Returns-bind (λ rooms'. ok (make id exp, rooms')) (save_room-Filed (make id exp))
              (λ rooms' h. returned {a = (make id exp, rooms')} h)))

    revoke-Filed : (found : Option AuditRoom) → Returns (λ r. IsFiled r.1) (revoke K rooms found)
    revoke-Filed none = returned {a = (false, rooms)} filed
    revoke-Filed (some room) =
        Returns-bind _ (save_room-Filed (record room { status = revoked }))
          (λ rooms' h. returned {a = (true, rooms')} h)

    enter-Filed :
        (now : ℕ) (ip_address user_agent : String) (room : AuditRoom) (same : Bool)
        → Returns (λ r. IsFiled r.1) (enter K now ip_address user_agent room rooms same)
    enter-Filed now ip_address user_agent room false = returned {a = ((false, none), rooms)} filed
    enter-Filed now ip_address user_agent room true =
        let logged = record_access K now ip_address user_agent room in
        Returns-bind _ (save_room-Filed logged)
          (λ rooms' h. returned {a = ((true, some logged), rooms')} h)

    check_token-Filed :
        (now : ℕ) (token ip_address user_agent : String) (room : AuditRoom) (live : Bool)
        → Returns (λ r. IsFiled r.1) (check_token K now token ip_address user_agent room rooms live)
    check_token-Filed now token ip_address user_agent room false =
        returned {a = ((false, none), rooms)} filed
    check_token-Filed now token ip_address user_agent room true =
        if-both (Returns (λ r. IsFiled r.1)) (str_eq token "") {x = ok ((false, none), rooms)}
          {y = compare_digest room.access_token token
            >>= enter K now ip_address user_agent room rooms}
          (λ _. returned {a = ((false, none), rooms)} filed)
          (λ _.
            Returns-then (compare_digest room.access_token token) _
              (enter-Filed now ip_address user_agent room))

    admit-Filed :
        (now : ℕ) (token ip_address user_agent : String) (found : Option AuditRoom)
        → Returns (λ r. IsFiled r.1) (admit K now token ip_address user_agent rooms found)
    admit-Filed now token ip_address user_agent none = returned {a = ((false, none), rooms)} filed
    admit-Filed now token ip_address user_agent (some room) =
        Returns-then (is_active K now room) _
          (check_token-Filed now token ip_address user_agent room)

    Step-IsFiled : (rooms' : Rooms) → Step rooms rooms' → IsFiled rooms'
    unfolding create_room revoke_room validate_access
    Step-IsFiled _
          (created now new_token folders blocks room_id title auditor_email period_start period_end
            expires_days controls_in_scope notes room rooms' h) =
        let make =
          new_room K now new_token folders blocks title auditor_email period_start period_end
            controls_in_scope notes in
        Returns-ok
          (subst (Returns (λ r. IsFiled r.1)) h (create_with-Filed now make room_id expires_days))
    Step-IsFiled _ (revoked_by now new_token room_id done rooms' h) = Returns-ok (
        subst (Returns (λ r. IsFiled r.1)) h
          (revoke-Filed (get_room K now new_token room_id rooms)))
    Step-IsFiled _ (accessed now new_token room_id token ip_address user_agent answer rooms' h) =
        Returns-ok (
          subst (Returns (λ r. IsFiled r.1)) h (
            admit-Filed now token ip_address user_agent
              (get_room K (K.isoformat now) new_token room_id rooms)))

  -- In every store that creations, revocations and accesses lead to from none, a file with a room stands
  -- under the sanitized id of the room.
  pub Reached-IsFiled : (rooms : Rooms) → Reached rooms → IsFiled rooms
  Reached-IsFiled rooms empty = λ name found id h k. cc
  Reached-IsFiled rooms' (next {rooms} r s) = Step-IsFiled rooms (Reached-IsFiled rooms r) rooms' s
