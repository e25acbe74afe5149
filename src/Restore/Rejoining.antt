-- ===== src/Restore/Rejoining.antt =====
-- What restoreRoomLocked gives back of a room: its place in the table, the seats and the users.
use metroserver.Prelude.{
  ℕ, ◌≡◌, refl, ap, sym, subst, ◌∙◌, ◌⊎◌, inl, inr, Bool, true, false, not, ◌&&◌, some, List, [],
  ◌∷◌, ltb, length, filter, map, ℤ, pos, ltb_ℤ, leb_ℤ, Bytes, Map, lookup, insert, lookup-insert,
  if_keeps, some_keeps, Bool-cases, ==-iff, ==-refl, nat_eq, bytes_eq_instance, ◌==◌,
}
use metroserver.Protocol.{UserInfo, RoomState}
use metroserver.Validation.{live_playback_position}
use metroserver.Queue.{sanitize_queue}
use metroserver.World.{Server, Room, Session, without_user}
use metroserver.Snapshot.{PersistentSession, RoomRecord, mark_offline}
use metroserver.Restore.{
  is_reconnectable, restore_users, restore_sessions, restored_state, park_track, restore_room,
  disconnected_at, empty_restored_room, host_lost_at, add_room,
}

-- An element of a list.
abbrev pub Has : {A : Type 0} → A → List A → Type 0
Has x [] = ⊥
Has x (y ∷ ys) = (y ≡ x) ⊎ Has x ys

-- There is an entry under the key.
abbrev pub HasKey : {A : Type 0} → Bytes → Map Bytes A → Type 0
HasKey {A} key m = (v : A) × (lookup key m ≡ some v)

pub HasKey-insert :
    {A : Type 0} (key other : Bytes) (v : A) (m : Map Bytes A)
    → HasKey key m
    → HasKey key (insert other v m)
HasKey-insert key other v m (w, e) = elim (Bool-cases (other == key)) [
  | inl y ↦ (v, lookup-insert other key v m ∙ rw y)
  | inr n ↦ (w, lookup-insert other key v m ∙ rw (n, e))
]

pub HasKey-insert_same :
    {A : Type 0} (key : Bytes) (v : A) (m : Map Bytes A) → HasKey key (insert key v m)
HasKey-insert_same key v m = (v, lookup-insert key key v m ∙ rw (==-refl key))

pub Has-map : {A B : Type 0} (f : A → B) (x : A) (xs : List A) → Has x xs → Has (f x) (map f xs)
Has-map f x [] m = absurd m
Has-map f x (y ∷ ys) (inl e) = inl (ap f e)
Has-map f x (y ∷ ys) (inr m) = inr (Has-map f x ys m)

-- A token leads to the user.
pub is_reconnectable-true :
    (p : PersistentSession) (ps : List PersistentSession)
    → p.token == [] ≡ false
    → Has p ps
    → is_reconnectable ps p.user_id ≡ true
unfolding is_reconnectable
is_reconnectable-true p [] h m = absurd m
is_reconnectable-true p (q ∷ ps) h (inl e) =
    subst (λ (q : PersistentSession). is_reconnectable (q ∷ ps) p.user_id ≡ true) (sym e)
      (rw (is_reconnectable, h, ==-refl p.user_id))
is_reconnectable-true p (q ∷ ps) h (inr m) =
    if_keeps (λ b. b ≡ true) (not (q.token == []) && q.user_id == p.user_id) (λ _. refl)
      (λ _. is_reconnectable-true p ps h m)

without_user-Has :
    (u : UserInfo) (user_id : Bytes) (users : List UserInfo)
    → u.user_id == user_id ≡ false
    → Has u users
    → Has u (without_user users user_id)
unfolding without_user
without_user-Has u user_id [] h m = absurd m
without_user-Has u user_id (v ∷ users) h (inl e) =
    subst
      (λ (v : UserInfo). Has u (filter (λ (w : UserInfo). not (w.user_id == user_id)) (v ∷ users)))
      (sym e) (rw h (inl refl))
without_user-Has u user_id (v ∷ users) h (inr m) =
    if_keeps (Has u) (not (v.user_id == user_id)) (λ _. inr (without_user-Has u user_id users h m))
      (λ _. without_user-Has u user_id users h m)

module _ (moved : ℕ → ℕ) (sessions : List PersistentSession) where
  -- Whom the loop over the disconnected users drops.
  abbrev is_dropped : Bytes → Bool
  is_dropped user_id = not (is_reconnectable sessions user_id) && ltb 0 (length sessions)

  abbrev seated : Bytes → Server → Session → Room → Room
  seated user_id s session room = record room {
    disconnected_users = insert user_id s.next_session room.disconnected_users;
  }

  restore_users-holds :
      (users : Map Bytes Session) (s : Server) (room : Room) (user_id : Bytes)
      → HasKey user_id room.disconnected_users
      → HasKey user_id (restore_users moved sessions users s room).1.disconnected_users
  unfolding restore_users
  restore_users-holds [] s room user_id h = h
  restore_users-holds ((other, session) ∷ rest) s room user_id h =
      if_keeps (λ (r : Server × Room). HasKey user_id r.1.disconnected_users) (is_dropped other)
        (λ _. restore_users-holds rest _ _ user_id h)
        (λ _.
          restore_users-holds rest _ _ user_id
            (HasKey-insert user_id other s.next_session room.disconnected_users h))

  -- A user whom a token leads to gets a seat.
  pub restore_users-HasKey :
      (users : Map Bytes Session) (s : Server) (room : Room) (user_id : Bytes)
      → is_reconnectable sessions user_id ≡ true
      → HasKey user_id users
      → HasKey user_id (restore_users moved sessions users s room).1.disconnected_users
  unfolding restore_users lookup
  restore_users-HasKey [] s room user_id known (v, e) = cc
  restore_users-HasKey ((other, session) ∷ rest) s room user_id known (v, e) =
      elim (Bool-cases (other == user_id)) [
        | inl y ↦
            let same : other ≡ user_id = (==-iff other user_id).0 y in
            rw (same, known)
              (restore_users-holds rest _ _ user_id
                (HasKey-insert_same user_id s.next_session room.disconnected_users))
        | inr n ↦
            let e' : lookup user_id rest ≡ some v = rw n at e in
            if_keeps (λ (r : Server × Room). HasKey user_id r.1.disconnected_users)
              (is_dropped other) (λ _. restore_users-HasKey rest _ _ user_id known (v, e'))
              (λ _. restore_users-HasKey rest _ _ user_id known (v, e'))
      ]

  -- A user whom a token leads to stays in the list of the users.
  pub restore_users-Has :
      (users : Map Bytes Session) (s : Server) (room : Room) (u : UserInfo)
      → is_reconnectable sessions u.user_id ≡ true
      → Has u room.state.users
      → Has u (restore_users moved sessions users s room).1.state.users
  unfolding restore_users
  restore_users-Has [] s room u known m = m
  restore_users-Has ((other, session) ∷ rest) s room u known m =
      elim (Bool-cases (u.user_id == other)) [
        | inl y ↦
            let same : other ≡ u.user_id = sym ((==-iff u.user_id other).0 y) in
            rw (same, known) (restore_users-Has rest _ _ u known m)
        | inr n ↦
            if_keeps (λ (r : Server × Room). Has u r.1.state.users) (is_dropped other)
              (λ _.
                restore_users-Has rest _ _ u known (without_user-Has u other room.state.users n m))
              (λ _. restore_users-Has rest _ _ u known m)
      ]

  -- The loop leaves the table of the rooms, and what else the room is.
  pub restore_users-same :
      (users : Map Bytes Session) (s : Server) (room : Room)
      → ((restore_users moved sessions users s room).1.owner_id ≡ room.owner_id)
        × ((restore_users moved sessions users s room).1.track_revision ≡ room.track_revision)
  unfolding restore_users
  restore_users-same [] s room = (refl, refl)
  restore_users-same ((other, session) ∷ rest) s room =
      if_keeps
        (λ (r : Server × Room).
          (r.1.owner_id ≡ room.owner_id) × (r.1.track_revision ≡ room.track_revision))
        (is_dropped other) (λ _. restore_users-same rest _ _) (λ _. restore_users-same rest _ _)

  pub restore_sessions-rooms :
      (ps : List PersistentSession) (s : Server)
      → ((restore_sessions moved ps s).rooms ≡ s.rooms)
        × ((restore_sessions moved ps s).room_at ≡ s.room_at)
  unfolding restore_sessions
  restore_sessions-rooms [] s = (refl, refl)
  restore_sessions-rooms (p ∷ rest) s =
      let kept = restore_sessions-rooms rest _ in
      (
        kept.0
            ∙ if_keeps (λ (t : Server). t.rooms ≡ s.rooms) (p.token == []) (λ _. refl) (λ _. refl),
        kept.1
            ∙ if_keeps (λ (t : Server). t.room_at ≡ s.room_at) (p.token == []) (λ _. refl)
                (λ _. refl),
      )

pub restored_state-Has :
    (now_ms : ℤ) (state : RoomState) (u : UserInfo)
    → Has u state.users
    → Has (mark_offline u) (restored_state now_ms state).users
unfolding restored_state park_track
restored_state-Has now_ms state u m =
    let there = Has-map mark_offline u state.users m in
    some_keeps (λ (v : RoomState). Has (mark_offline u) v.users) state.current_track (λ _. there)
      (λ track _.
        if_keeps (λ (v : RoomState). Has (mark_offline u) v.users)
          (state.is_playing
            && (ltb_ℤ (pos 0) track.duration
                && leb_ℤ track.duration (
                    live_playback_position
                      (record state {
                        users = map mark_offline state.users;
                        queue = sanitize_queue state.queue;
                      })
                      now_ms)))
          (λ _. there) (λ _. there))

-- The room is back: in the table under its code, with its owner and its track revision, with a seat for the user, and
-- with every entry of the user that it had, offline.
pub record IsBack (t : Server) (room : Room) (user_id : Bytes) (r : ℕ) : Type 0 where
  pub found : lookup room.code t.rooms ≡ some r
  pub owner : (t.room_at r).owner_id ≡ room.owner_id
  pub revision : (t.room_at r).track_revision ≡ room.track_revision
  pub seat : HasKey user_id (t.room_at r).disconnected_users
  pub user :
      (u : UserInfo)
      → Has u room.state.users
      → u.user_id ≡ user_id
      → Has (mark_offline u) (t.room_at r).state.users

-- A record of the room.
pub record IsRecordOf (room : Room) (st : RoomState) (stored : RoomRecord) : Type 0 where
  pub code : stored.room.code ≡ room.code
  pub owner : stored.room.owner_id ≡ room.owner_id
  pub revision : stored.room.track_revision ≡ room.track_revision
  pub state : stored.room.state ≡ some st
  pub users : (u : UserInfo) → Has u room.state.users → Has (mark_offline u) st.users

pub restore_room-IsBack :
    (stopped_at offline : ℕ) (now_ms : ℤ) (stored : RoomRecord) (s : Server) (room : Room)
    (state : RoomState) (user_id : Bytes)
    → IsRecordOf room state stored
    → is_reconnectable stored.sessions user_id ≡ true
    → HasKey user_id stored.room.disconnected_users
    → (r : ℕ) × IsBack (restore_room stopped_at offline now_ms stored s) room user_id r
unfolding restore_room empty_restored_room
restore_room-IsBack stopped_at offline now_ms stored s room state user_id h known seat =
    let moved : ℕ → ℕ = disconnected_at stopped_at offline in
    let start : Room = empty_restored_room stored.room (restored_state now_ms state) in
    let got : Server × Room =
      restore_users moved stored.sessions stored.room.disconnected_users s start in
    let back : Room = record got.1 {
      host_disconnected_at = host_lost_at offline stored.room got.0 got.1;
    } in
    let last : Server =
      restore_sessions moved stored.sessions (add_room stored.room.code back got.0) in
    let tables =
      restore_sessions-rooms moved stored.sessions stored.sessions
        (add_room stored.room.code back got.0) in
    let at : last.room_at got.0.next_room ≡ back =
      ap (λ (f : ℕ → Room). f got.0.next_room) tables.1 ∙ rw (==-refl got.0.next_room) in
    let same = restore_users-same moved stored.sessions stored.room.disconnected_users s start in
    rw h.state (
      got.0.next_room,
      record {
        found =
            ap (lookup room.code) tables.0
            ∙ lookup-insert stored.room.code room.code got.0.next_room got.0.rooms
            ∙ rw (h.code, ==-refl room.code);
        owner = ap (λ (v : Room). v.owner_id) at ∙ same.0 ∙ h.owner;
        revision = ap (λ (v : Room). v.track_revision) at ∙ same.1 ∙ h.revision;
        seat =
            subst (λ (v : Room). HasKey user_id v.disconnected_users) (sym at)
              (restore_users-HasKey moved stored.sessions stored.room.disconnected_users s start
                user_id known seat);
        user = λ u m e.
            subst (λ (v : Room). Has (mark_offline u) v.state.users) (sym at)
              (restore_users-Has moved stored.sessions stored.room.disconnected_users s start
                (mark_offline u) (ap (is_reconnectable stored.sessions) e ∙ known)
                (restored_state-Has now_ms state (mark_offline u) (h.users u m)));
      },
    )
