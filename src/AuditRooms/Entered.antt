-- ===== src/AuditRooms/Entered.antt =====
-- Who may enter an audit room.
use soc2_sentinel.Base.{
  ℕ, String, Bool, true, false, ◌&&◌, Option, none, some, Codes, codes, ◌≡◌, refl, sym, ap, subst,
  ◌∙◌, ◌↔◌, ◌⊎◌, ◌≤◌, ltb, arith, Bool-cases, Option-cases, inl, inr, str_eq, str_eq_iff,
  if◌then◌else◌,
}
use soc2_sentinel.Python.{Py, ok, raise, type_error, ◌>>=◌, >>=-eq-ok, ok-injective}
use soc2_sentinel.AuditRooms.{
  Calendar, Moment, aware, naive, AuditRoom, AuditRoomStatus, active, expired, revoked,
  is_before_expiry, is_active, record_access, Rooms, sanitize_room_id, save_room, is_ascii,
  compare_digest, get_room, revoke, revoke_room, enter, check_token, admit, validate_access,
}
use soc2_sentinel.AuditRooms.Filed.{IsFiled, get_room-save_room, get_room-filed}

module _ (K : Calendar) where
  -- What the text of an expiry says: no text, a text that is no date, or a date with a time zone that is
  -- not before this time.
  abbrev pub IsUnexpired : ℕ → String → Type 0
  IsUnexpired now expires_at =
      (expires_at ≡ "")
      ⊎ ((K.parse expires_at ≡ none)
          ⊎ ((expiry : ℕ) × (K.parse expires_at ≡ some (aware expiry)) × (now ≤ expiry)))

  is_before_expiry-IsUnexpired :
      (now : ℕ) (expires_at : String) (parsed : Option Moment)
      → K.parse expires_at ≡ parsed
      → is_before_expiry K now parsed ≡ ok true
      → IsUnexpired now expires_at
  is_before_expiry-IsUnexpired now expires_at none e h = inr (inl e)
  is_before_expiry-IsUnexpired now expires_at (some (naive _)) e h = cc
  is_before_expiry-IsUnexpired now expires_at (some (aware expiry)) e h =
      let before = ok-injective (if ltb expiry now then false else true) true h in
      inr (inr (expiry, e, ground (arith, before)))

  is_active-IsUnexpired :
      (now : ℕ) (room : AuditRoom)
      → is_active K now room ≡ ok true
      → (room.status ≡ active) × IsUnexpired now room.expires_at
  unfolding is_active
  is_active-IsUnexpired now room h = by_status room.status refl
    where
      as_if : AuditRoomStatus → Py Bool
      as_if status = is_active K now (record room { status = status })

      by_status :
          (status : AuditRoomStatus)
          → room.status ≡ status
          → (room.status ≡ active) × IsUnexpired now room.expires_at
      by_status active e =
          let live : as_if active ≡ ok true = ap as_if (sym e) ∙ h in
          let parsed = K.parse room.expires_at in
          (
            e,
            elim (Bool-cases (str_eq room.expires_at "")) [
              | inl b ↦ inl ((str_eq_iff room.expires_at "").0 b)
              | inr b ↦
                  is_before_expiry-IsUnexpired now room.expires_at parsed refl
                    (ap (λ b. if b then ok true else is_before_expiry K now parsed) (sym b) ∙ live)
            ],
          )
      by_status expired e = let shut : as_if expired ≡ ok true = ap as_if (sym e) ∙ h in cc
      by_status revoked e = let shut : as_if revoked ≡ ok true = ap as_if (sym e) ∙ h in cc

  IsUnexpired-is_active :
      (now : ℕ) (room : AuditRoom)
      → room.status ≡ active
      → IsUnexpired now room.expires_at
      → is_active K now room ≡ ok true
  unfolding is_active
  IsUnexpired-is_active now room s u =
      ap (λ status. is_active K now (record room { status = status })) s ∙ in_time u
    where
      same_either : (b : Bool) → (if b then ok true else ok true) ≡ ok true
      same_either true = refl
      same_either false = refl

      ltb-not_below : (expiry : ℕ) → now ≤ expiry → ltb expiry now ≡ false
      ltb-not_below expiry h = ground (arith, h)

      in_time :
          IsUnexpired now room.expires_at
          → is_active K now (record room { status = active }) ≡ ok true
      in_time (inl e) =
          ap (λ b. if b then ok true else is_before_expiry K now (K.parse room.expires_at))
            ((str_eq_iff room.expires_at "").1 e)
      in_time (inr (inl e)) =
          ap (λ p. if str_eq room.expires_at "" then ok true else is_before_expiry K now p) e
          ∙ same_either (str_eq room.expires_at "")
      in_time (inr (inr (expiry, e, le))) =
          ap (λ p. if str_eq room.expires_at "" then ok true else is_before_expiry K now p) e
          ∙ ap (λ b. if str_eq room.expires_at "" then ok true else ok (if b then false else true))
              (ltb-not_below expiry le)
          ∙ same_either (str_eq room.expires_at "")

  -- The room as it is read, if it is active, has not expired at this time and its token is this one.
  abbrev pub IsAdmitted : ℕ → String → Codes → String → Rooms → AuditRoom → Type 0
  IsAdmitted now new_token room_id token rooms room =
      (get_room K (K.isoformat now) new_token room_id rooms ≡ some room)
      × (room.status ≡ active)
      × IsUnexpired now room.expires_at
      × (str_eq token "" ≡ false)
      × (room.access_token ≡ token)
      × (is_ascii (codes token) ≡ true)

  compare_digest-true :
      (a b : String) → compare_digest a b ≡ ok true → (a ≡ b) × (is_ascii (codes b) ≡ true)
  unfolding compare_digest
  compare_digest-true a b h = elim (Bool-cases (is_ascii (codes a) && is_ascii (codes b))) [
    | inl e ↦ (
      (str_eq_iff a b).0 (
          ok-injective (str_eq a b) true
            (ap (λ c. if c then ok (str_eq a b) else raise type_error) (sym e) ∙ h)),
      ground (arith, e),
    )
    | inr e ↦
        absurd (not_ok (ap (λ c. if c then ok (str_eq a b) else raise type_error) (sym e) ∙ h))
  ]
    where
      not_ok : ¬ (raise type_error ≡ ok true)
      not_ok h = cc

  compare_digest_refl : (a : String) → is_ascii (codes a) ≡ true → compare_digest a a ≡ ok true
  unfolding compare_digest
  compare_digest_refl a h = rw h (ap ok ((str_eq_iff a a).1 refl))

  module _ (now : ℕ) (new_token : String) (room_id : Codes) (token ip_address user_agent : String)
      (rooms : Rooms) where
    abbrev entered : Py ((Bool × Option AuditRoom) × Rooms)
    entered = validate_access K now new_token room_id token ip_address user_agent rooms

    -- An answer that grants access to this room and leaves these rooms.
    abbrev grants : AuditRoom → Rooms → Py ((Bool × Option AuditRoom) × Rooms)
    grants granted rooms' = ok ((true, some granted), rooms')

    not_refused :
        (granted : AuditRoom) (rooms' : Rooms)
        → ¬ (ok ((false, none), rooms) ≡ grants granted rooms')
    not_refused granted rooms' h = cc

    enter-grants :
        (room granted : AuditRoom) (rooms' : Rooms) (same : Bool)
        → enter K now ip_address user_agent room rooms same ≡ grants granted rooms'
        → (same ≡ true)
          × (granted ≡ record_access K now ip_address user_agent room)
          × (save_room granted rooms ≡ ok rooms')
    enter-grants room granted rooms' false h = absurd (not_refused granted rooms' h)
    enter-grants room granted rooms' true h =
        let logged = record_access K now ip_address user_agent room in
        let (rooms'', saved, last) =
          >>=-eq-ok (save_room logged rooms) (λ rs. grants logged rs) h in
        let (first, second) = parts logged rooms'' last in
        (refl, sym first, subst (λ r. save_room r rooms ≡ ok rooms') first (saved ∙ ap ok second))
      where
        parts :
            (logged : AuditRoom) (rooms'' : Rooms)
            → grants logged rooms'' ≡ grants granted rooms'
            → (logged ≡ granted) × (rooms'' ≡ rooms')
        parts logged rooms'' h = (cc, cc)

    check_token-grants :
        (room granted : AuditRoom) (rooms' : Rooms) (live : Bool)
        → check_token K now token ip_address user_agent room rooms live ≡ grants granted rooms'
        → (live ≡ true)
          × (str_eq token "" ≡ false)
          × (compare_digest room.access_token token ≡ ok true)
          × (granted ≡ record_access K now ip_address user_agent room)
          × (save_room granted rooms ≡ ok rooms')
    check_token-grants room granted rooms' false h = absurd (not_refused granted rooms' h)
    check_token-grants room granted rooms' true h =
        let compared =
          compare_digest room.access_token token >>= enter K now ip_address user_agent room rooms in
        elim (Bool-cases (str_eq token "")) [
          | inl e ↦ absurd (
              not_refused granted rooms'
                (ap (λ b. if b then ok ((false, none), rooms) else compared) (sym e) ∙ h))
          | inr e ↦
              let (same, digest, next) =
                >>=-eq-ok (compare_digest room.access_token token)
                  (enter K now ip_address user_agent room rooms)
                  (ap (λ b. if b then ok ((false, none), rooms) else compared) (sym e) ∙ h) in
              let (agreed, logged, saved) = enter-grants room granted rooms' same next in
              (refl, e, digest ∙ ap ok agreed, logged, saved)
        ]

    admit-grants :
        (found : Option AuditRoom) (granted : AuditRoom) (rooms' : Rooms)
        → get_room K (K.isoformat now) new_token room_id rooms ≡ found
        → admit K now token ip_address user_agent rooms found ≡ grants granted rooms'
        → (room : AuditRoom) × IsAdmitted now new_token room_id token rooms room
          × (granted ≡ record_access K now ip_address user_agent room)
          × (save_room granted rooms ≡ ok rooms')
    admit-grants none granted rooms' found h = absurd (not_refused granted rooms' h)
    admit-grants (some room) granted rooms' found h =
        let (live, live_now, next) =
          >>=-eq-ok (is_active K now room)
            (check_token K now token ip_address user_agent room rooms) h in
        let (agreed, given, digest, logged, saved) =
          check_token-grants room granted rooms' live next in
        let (same, ascii) = compare_digest-true room.access_token token digest in
        let (status, fresh) = is_active-IsUnexpired now room (live_now ∙ ap ok agreed) in
        (room, (found, status, fresh, given, same, ascii), logged, saved)

    validate_access-admit :
        (room : AuditRoom) (rooms' : Rooms)
        → IsAdmitted now new_token room_id token rooms room
        → save_room (record_access K now ip_address user_agent room) rooms ≡ ok rooms'
        → entered ≡ grants (record_access K now ip_address user_agent room) rooms'
    unfolding validate_access
    validate_access-admit room rooms' (found, status, fresh, given, same, ascii) saved =
        let live = IsUnexpired-is_active now room status fresh in
        let next = enter K now ip_address user_agent room rooms in
        let digest = ap (λ t. compare_digest t token) same ∙ compare_digest_refl token ascii in
        ap (admit K now token ip_address user_agent rooms) found
        ∙ ap (λ m. m >>= check_token K now token ip_address user_agent room rooms) live
        ∙ ap
            (λ b.
              if b
              then ok ((false, none), rooms)
              else compare_digest room.access_token token >>= next)
            given
        ∙ ap (λ m. m >>= next) digest
        ∙ ap (λ m. m >>= λ rs. grants (record_access K now ip_address user_agent room) rs) saved

    -- Access is granted exactly to a room that is stored under the id, whose status is active and whose
    -- expiry is empty, no date, or a date with a time zone and not before this time, with a token that is
    -- not empty, is ASCII and is the room's, where the room with the access in its log can be stored; that
    -- room is the one handed out and then stored.
    pub validate_access-granted_iff :
        (granted : AuditRoom) (rooms' : Rooms)
        → (entered ≡ ok ((true, some granted), rooms')) ↔ (
            (room : AuditRoom) × IsAdmitted now new_token room_id token rooms room
            × (granted ≡ record_access K now ip_address user_agent room)
            × (save_room granted rooms ≡ ok rooms'))
    unfolding validate_access
    validate_access-granted_iff granted rooms' = (
      admit-grants _ granted rooms' refl,
      λ (room, admitted, same, saved).
          subst (λ r. entered ≡ ok ((true, some r), rooms')) (sym same)
            (validate_access-admit room rooms' admitted
              (subst (λ r. save_room r rooms ≡ ok rooms') same saved)),
    )

  -- Where each room's file stands under the sanitized id of the room: in the store after a room has been
  -- revoked, no id that leads to it and no token opens it.
  pub revoke_room-denied :
      (now : ℕ) (read_at fresh new_token : String) (room_id other : Codes)
      (token ip_address user_agent : String) (rooms rooms' : Rooms)
      → IsFiled rooms
      → revoke_room K read_at fresh room_id rooms ≡ ok (true, rooms')
      → sanitize_room_id other ≡ sanitize_room_id room_id
      → validate_access K now new_token other token ip_address user_agent rooms'
        ≡ ok ((false, none), rooms')
  unfolding revoke_room validate_access is_active
  revoke_room-denied now read_at fresh new_token room_id other token ip_address user_agent rooms
        rooms' filed h same =
      elim (Option-cases (get_room K read_at fresh room_id rooms)) [
        | inl e ↦ absurd (not_revoked (ap (revoke K rooms) (sym e) ∙ h))
        | inr (room, e) ↦
            let closed = record room { status = revoked } in
            let (stored, saved, last) =
              >>=-eq-ok (save_room closed rooms) (λ rs. ok (true, rs))
                (ap (revoke K rooms) (sym e) ∙ h) in
            let leads = same ∙ sym (get_room-filed K read_at fresh room_id rooms room filed e) in
            ap (admit K now token ip_address user_agent rooms') (
              get_room-save_room K (K.isoformat now) new_token closed rooms rooms' other
                (saved ∙ ap ok (second stored last)) leads)
      ]
    where
      outcome : Bool → Rooms → Py (Bool × Rooms)
      outcome done after = ok (done, after)

      not_revoked : ¬ (outcome false rooms ≡ outcome true rooms')
      not_revoked h = cc

      second : (stored : Rooms) → outcome true stored ≡ outcome true rooms' → stored ≡ rooms'
      second stored h = cc
