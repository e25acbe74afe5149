-- ===== src/Restore/RoundTrip.antt =====
-- A member of a room whose record is written and restored can come back.
use metroserver.Prelude.{
  ℕ, ◌+◌, ◌≡◌, ◌≢◌, refl, sym, subst, ◌∙◌, inl, inr, true, false, some, List, [], ◌∷◌, ◌++◌, ℤ,
  Bytes, Map, insert, ap, map, if_keeps, Bool-cases, ==-iff, ==-refl, All, nat_eq,
  bytes_eq_instance, ◌==◌,
}
use metroserver.Protocol.{RoomState}
use metroserver.Hosts.{bytes_ltb}
use metroserver.World.{Server, Room, set_client}
use metroserver.Snapshot.{
  PersistentSession, RoomRecord, persistent_session, insert_by, sort_by, Collected, member_session,
  token_of, mark_offline, collect_members, persist_room, copied_sessions,
}
use metroserver.Restore.{disconnected_at, restore_room}
use metroserver.Restore.Rejoining.{
  Has, HasKey, HasKey-insert, HasKey-insert_same, Has-map, is_reconnectable-true, IsBack,
  restore_room-IsBack,
}
use metroserver.Restore.Seats.{Leads, AreDistinct, Resumes, restore_sessions-Resumes}

All-Has {κ} : {A : Type 0} (P : A → Type κ) (x : A) (xs : List A) → All P xs → Has x xs → P x
All-Has P x [] h m = absurd m
All-Has P x (y ∷ ys) h (inl e) = subst P e h.0
All-Has P x (y ∷ ys) h (inr m) = All-Has P x ys h.1 m

module _ {A : Type 0} (key : A → Bytes) where
  insert_by-Has_new : (x : A) (xs : List A) → Has x (insert_by key x xs)
  unfolding insert_by
  insert_by-Has_new x [] = inl refl
  insert_by-Has_new x (y ∷ ys) =
      if_keeps (Has x) (bytes_ltb (key y) (key x)) (λ _. inr (insert_by-Has_new x ys))
        (λ _. inl refl)

  insert_by-Has_old : (x z : A) (xs : List A) → Has z xs → Has z (insert_by key x xs)
  unfolding insert_by
  insert_by-Has_old x z [] m = inr m
  insert_by-Has_old x z (y ∷ ys) m =
      if_keeps (Has z) (bytes_ltb (key y) (key x))
        (λ _. elim m [ inl e ↦ inl e | inr k ↦ inr (insert_by-Has_old x z ys k) ]) (λ _. inr m)

  sort_by-Has : (z : A) (xs : List A) → Has z xs → Has z (sort_by key xs)
  unfolding sort_by
  sort_by-Has z [] m = m
  sort_by-Has z (x ∷ xs) (inl e) =
      subst (λ w. Has w (sort_by key (x ∷ xs))) e (insert_by-Has_new x (sort_by key xs))
  sort_by-Has z (x ∷ xs) (inr m) = insert_by-Has_old x z (sort_by key xs) (sort_by-Has z xs m)

Has-append_left :
    (x : PersistentSession) (xs ys : List PersistentSession) → Has x xs → Has x (xs ++ ys)
Has-append_left x [] ys m = absurd m
Has-append_left x (y ∷ xs) ys (inl e) = inl e
Has-append_left x (y ∷ xs) ys (inr m) = inr (Has-append_left x xs ys m)

Has-append_last : (x : PersistentSession) (xs : List PersistentSession) → Has x (xs ++ x ∷ [])
Has-append_last x [] = inl refl
Has-append_last x (y ∷ xs) = inr (Has-append_last x xs)

module _ (fresh_token : ℕ → Bytes) (room : Room) where
  -- One turn of the loop over the members.
  abbrev next_server : Server → ℕ → Server
  next_server s c =
      set_client s c (record (s.client_at c) { session_token = token_of fresh_token s c })

  token_of-held :
      (s : Server) (c : ℕ)
      → (s.client_at c).session_token ≢ []
      → token_of fresh_token s c ≡ (s.client_at c).session_token
  token_of-held s c h = elim (Bool-cases ((s.client_at c).session_token == [])) [
    | inl y ↦ absurd (h ((==-iff (s.client_at c).session_token []).0 y))
    | inr n ↦ rw n
  ]

  -- A token that a client holds stays, and names never change.
  next_server-held :
      (s : Server) (c d : ℕ)
      → (s.client_at c).session_token ≢ []
      → ((next_server s d).client_at c).session_token ≡ (s.client_at c).session_token
  next_server-held s c d h = elim (Bool-cases (d == c)) [
    | inl y ↦ rw (y, (==-iff d c).0 y, token_of-held s c h)
    | inr n ↦ rw n
  ]

  next_server-username :
      (s : Server) (c d : ℕ) → ((next_server s d).client_at c).username ≡ (s.client_at c).username
  next_server-username s c d = elim (Bool-cases (d == c)) [
    | inl y ↦ rw (y, (==-iff d c).0 y)
    | inr n ↦ rw n
  ]

  -- The stored session of a member.
  abbrev stored_member : Bytes → Bytes → Bytes → PersistentSession
  stored_member token user_id username = record {
    token = token;
    user_id = user_id;
    username = username;
    room_code = room.code;
    is_host = room.state.host_id == user_id;
    disconnect_at = 0;
  }

  collect_members-held :
      (clients : Map Bytes ℕ) (got : Collected) (c : ℕ) (p : PersistentSession)
      → (got.server.client_at c).session_token ≢ []
      → Has p got.sessions
      → ((((collect_members fresh_token room clients got).server.client_at c).session_token
          ≡ (got.server.client_at c).session_token))
        × Has p (collect_members fresh_token room clients got).sessions
  unfolding collect_members
  collect_members-held [] got c p h m = (refl, m)
  collect_members-held ((user_id, d) ∷ rest) got c p h m =
      let kept = next_server-held got.server c d h in
      let later =
        collect_members-held rest _ c p (λ e. h (sym kept ∙ e))
          (Has-append_left p got.sessions _ m) in
      (later.0 ∙ kept, later.1)

  token_of-nonempty : (s : Server) (c : ℕ) → fresh_token c ≢ [] → token_of fresh_token s c ≢ []
  token_of-nonempty s c h =
      if_keeps (λ t. t ≢ []) ((s.client_at c).session_token == []) (λ _. h)
        (λ n. λ e.
          let yes : (s.client_at c).session_token == [] ≡ true =
            (==-iff (s.client_at c).session_token []).1 e in
          cc)

  next_server-token :
      (s : Server) (c : ℕ)
      → ((next_server s c).client_at c).session_token ≡ token_of fresh_token s c
  next_server-token s c = rw (==-refl c)

  abbrev next_collected : Collected → Bytes → ℕ → Collected
  next_collected got id d = record {
    server = next_server got.server d;
    users = insert id (member_session room id (got.server.client_at d)) got.users;
    sessions =
        got.sessions
        ++ stored_member (token_of fresh_token got.server d) id (got.server.client_at d).username
          ∷ [];
  }

  -- What the loop has collected for a member: a session under the token that the client then holds.
  abbrev HasSeat : Collected → Collected → Bytes × ℕ → Type 0
  HasSeat got last (user_id, c) =
      ((last.server.client_at c).session_token ≢ [])
      × Has
          (stored_member (last.server.client_at c).session_token user_id
            (got.server.client_at c).username)
          last.sessions

  collect_members-first :
      (rest : Map Bytes ℕ) (got : Collected) (id : Bytes) (d : ℕ)
      → fresh_token d ≢ []
      → HasSeat got (collect_members fresh_token room rest (next_collected got id d)) (id, d)
  collect_members-first rest got id d fresh =
      let token = next_server-token got.server d in
      let later =
        collect_members-held rest (next_collected got id d) d
          (stored_member (token_of fresh_token got.server d) id (got.server.client_at d).username)
          (λ e. token_of-nonempty got.server d fresh (sym token ∙ e))
          (Has-append_last _ got.sessions) in
      subst
        (λ t.
          (t ≢ [])
          × Has (stored_member t id (got.server.client_at d).username)
              (collect_members fresh_token room rest (next_collected got id d)).sessions)
        (sym (later.0 ∙ token)) (token_of-nonempty got.server d fresh, later.1)

  collect_members-HasSeat :
      (clients : Map Bytes ℕ) (got : Collected) (member : Bytes × ℕ)
      → ((d : ℕ) → fresh_token d ≢ [])
      → Has member clients
      → HasSeat got (collect_members fresh_token room clients got) member
  unfolding collect_members persistent_session
  collect_members-HasSeat [] got member fresh m = absurd m
  collect_members-HasSeat ((id, d) ∷ rest) got member fresh (inl e) =
      subst (HasSeat got (collect_members fresh_token room rest (next_collected got id d))) e
        (collect_members-first rest got id d (fresh d))
  collect_members-HasSeat ((id, d) ∷ rest) got (user_id, c) fresh (inr m) =
      subst
        (λ name.
          (((collect_members fresh_token room rest (next_collected got id d)).server.client_at
              c).session_token
            ≢ [])
          × Has
              (stored_member
                ((collect_members fresh_token room rest (next_collected got id d)).server.client_at
                  c).session_token
                user_id name)
              (collect_members fresh_token room rest (next_collected got id d)).sessions)
        (next_server-username got.server c d)
        (collect_members-HasSeat rest (next_collected got id d) (user_id, c) fresh m)

  collect_members-holds :
      (clients : Map Bytes ℕ) (got : Collected) (user_id : Bytes)
      → HasKey user_id got.users
      → HasKey user_id (collect_members fresh_token room clients got).users
  unfolding collect_members
  collect_members-holds [] got user_id h = h
  collect_members-holds ((id, d) ∷ rest) got user_id h =
      collect_members-holds rest (next_collected got id d) user_id
        (HasKey-insert user_id id (member_session room id (got.server.client_at d)) got.users h)

  -- A member is stored among the disconnected users.
  collect_members-HasKey :
      (clients : Map Bytes ℕ) (got : Collected) (user_id : Bytes) (c : ℕ)
      → Has (user_id, c) clients
      → HasKey user_id (collect_members fresh_token room clients got).users
  unfolding collect_members persistent_session
  collect_members-HasKey [] got user_id c m = absurd m
  collect_members-HasKey ((id, d) ∷ rest) got user_id c (inl e) =
      collect_members-holds rest (next_collected got id d) user_id (
        subst
          (λ k. HasKey k (insert id (member_session room id (got.server.client_at d)) got.users))
          (ap (λ (entry : Bytes × ℕ). entry.0) e)
          (HasKey-insert_same id (member_session room id (got.server.client_at d)) got.users))
  collect_members-HasKey ((id, d) ∷ rest) got user_id c (inr m) =
      collect_members-HasKey rest (next_collected got id d) user_id c m

nonempty : (token : Bytes) → token ≢ [] → token == [] ≡ false
nonempty token h = elim (Bool-cases (token == [])) [
  | inl y ↦ absurd (h ((==-iff token []).0 y))
  | inr n ↦ n
]

-- The room that a record gives back, and every token of the record.
restore_room-Resumes :
    (stopped_at offline : ℕ) (now_ms : ℤ) (stored : RoomRecord) (t : Server) (state : RoomState)
    → stored.room.state ≡ some state
    → AreDistinct stored.sessions
    → All
        (Resumes
          (disconnected_at stopped_at offline)
          (restore_room stopped_at offline now_ms stored t))
        stored.sessions
unfolding restore_room
restore_room-Resumes stopped_at offline now_ms stored t state e h =
    rw (restore_room, e)
      (restore_sessions-Resumes (disconnected_at stopped_at offline) stored.sessions _ h)

-- For fresh tokens that are not empty and a record without two sessions of one token: after a room is
-- persisted, and its record restored into any server, the token that a member's client holds since the
-- snapshot leads to a session of that member, with the name, the room and the host flag, that counts as
-- disconnected since the server stopped, moved by the time offline; and the room is in the table under its code,
-- with its owner and track revision, with a seat for the member among the disconnected users, and with every entry
-- that the member has in the room's list of users, offline.
pub persist_room-restore_room :
    (fresh_token : ℕ → Bytes) (s t : Server) (room : Room) (sessions : List PersistentSession)
    (user_id : Bytes) (c stopped_at offline : ℕ) (now_ms : ℤ)
    → ((d : ℕ) → fresh_token d ≢ [])
    → Has (user_id, c) room.clients
    → AreDistinct (persist_room fresh_token s room sessions).1.sessions
    → Leads
        (restore_room stopped_at offline now_ms (persist_room fresh_token s room sessions).1 t)
        ((persist_room fresh_token s room sessions).0.client_at c).session_token
        (record {
          user_id = user_id;
          username = (s.client_at c).username;
          room_code = room.code;
          is_host = room.state.host_id == user_id;
          disconnect_at = stopped_at + offline;
          claimed = false;
        })
      × ((r : ℕ) × IsBack
            (restore_room stopped_at offline now_ms (persist_room fresh_token s room sessions).1 t)
            room
            user_id
            r)
unfolding persist_room
persist_room-restore_room fresh_token s t room sessions user_id c stopped_at offline now_ms fresh m
      h =
    let got : Collected = record {
      server = s;
      users = copied_sessions s room.disconnected_users;
      sessions = sessions;
    } in
    let token = ((persist_room fresh_token s room sessions).0.client_at c).session_token in
    let p : PersistentSession =
      stored_member fresh_token room token user_id (s.client_at c).username in
    let collected =
      collect_members-HasSeat fresh_token room room.clients got (user_id, c) fresh m in
    let seat =
      sort_by-Has (λ q. q.token) p (collect_members fresh_token room room.clients got).sessions
        collected.1 in
    let stored : RoomRecord = (persist_room fresh_token s room sessions).1 in
    let resumes : Resumes (disconnected_at stopped_at offline)
        (restore_room stopped_at offline now_ms stored t) p =
      All-Has _ p stored.sessions (restore_room-Resumes stopped_at offline now_ms _ t _ refl h)
        seat in
    (
      elim resumes [ inl empty ↦ absurd (collected.0 empty) | inr leads ↦ leads ],
      restore_room-IsBack stopped_at offline now_ms stored t room
          (record room.state { users = map mark_offline room.state.users }) user_id
          (record {
            code = refl;
            owner = refl;
            revision = refl;
            state = refl;
            users = λ u there. Has-map mark_offline u room.state.users there;
          })
          (is_reconnectable-true p stored.sessions (nonempty token collected.0) seat)
          (collect_members-HasKey fresh_token room room.clients got user_id c m),
    )
