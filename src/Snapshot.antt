-- ===== src/Snapshot.antt =====
-- internal/server/persistence.go: the records of the rooms, with the tokens that reconnect to them.
use metroserver.Prelude.{
  ℕ, Bool, false, not, ◌&&◌, Option, none, some, List, [], ◌∷◌, ◌++◌, map, Bytes, Map, insert,
  if◌then◌else◌, nat_eq, bytes_eq_instance, ◌==◌,
}
use metroserver.Protocol.{UserInfo, RoomState}
use metroserver.Hosts.{bytes_ltb}
use metroserver.World.{Server, Client, Room, Session, Suggestion, set_client}

-- PersistentSession. The time 0 is Go's zero time.
pub record PersistentSession : Type 0 where
  pub token : Bytes
  pub user_id : Bytes
  pub username : Bytes
  pub room_code : Bytes
  pub is_host : Bool
  pub disconnect_at : ℕ

-- PersistentRoom; a suggestion is stored with the fields that it has.
pub record PersistentRoom : Type 0 where
  pub code : Bytes
  pub host_id : Bytes
  pub owner_id : Bytes
  pub track_revision : ℕ
  pub state : Option RoomState
  pub disconnected_users : Map Bytes Session
  pub pending_suggestions : List Suggestion
  pub host_disconnected_at : Option ℕ

-- roomRecord
pub record RoomRecord : Type 0 where
  pub room : PersistentRoom
  pub sessions : List PersistentSession

unfoldable pub persistent_session : Bytes → Session → PersistentSession
persistent_session token session = record {
  token = token;
  user_id = session.user_id;
  username = session.username;
  room_code = session.room_code;
  is_host = session.is_host;
  disconnect_at = session.disconnect_at;
}

-- The sessions of a room, as the first loop of snapshotRooms collects them.
unfoldable pub sessions_of : Server → Bytes → Map Bytes ℕ → List PersistentSession
unfolding persistent_session
sessions_of s code [] = []
sessions_of s code ((token, n) ∷ rest) =
    let others = sessions_of s code rest in
    if not (token == []) && (s.session_at n).room_code == code
    then persistent_session token (s.session_at n) ∷ others
    else others

-- sort.Slice by a text, for the order of Go's strings.
unfoldable pub insert_by {ℓ} : {A : Type ℓ} → (A → Bytes) → A → List A → List A
insert_by key x [] = x ∷ []
insert_by key x (y ∷ ys) =
    let rest = insert_by key x ys in if bytes_ltb (key y) (key x) then y ∷ rest else x ∷ y ∷ ys

unfoldable pub sort_by {ℓ} : {A : Type ℓ} → (A → Bytes) → List A → List A
unfolding insert_by
sort_by key [] = []
sort_by key (x ∷ xs) = insert_by key x (sort_by key xs)

-- The copies of the sessions of the disconnected users; the claim is not stored.
unfoldable pub copied_sessions : Server → Map Bytes ℕ → Map Bytes Session
copied_sessions s [] = []
copied_sessions s ((user_id, n) ∷ rest) =
    (user_id, record (s.session_at n) { claimed = false }) ∷ copied_sessions s rest

abbrev pub mark_offline : UserInfo → UserInfo
mark_offline u = record u { is_connected = false }

-- What the loop over the members collects.
pub record Collected : Type 0 where
  pub server : Server
  pub users : Map Bytes Session
  pub sessions : List PersistentSession

-- A member's seat in the record.
abbrev pub member_session : Room → Bytes → Client → Session
member_session room user_id v = record {
  user_id = user_id;
  username = v.username;
  room_code = room.code;
  is_host = room.state.host_id == user_id;
  disconnect_at = 0;
  claimed = false;
}

module _ (fresh_token : ℕ → Bytes) where
  -- The token of a member, a fresh one if there is none.
  abbrev pub token_of : Server → ℕ → Bytes
  token_of s c =
      let token = (s.client_at c).session_token in if token == [] then fresh_token c else token

  -- The loop of persistRoomLocked over the members: each gets a token, and is stored as a user who is
  -- disconnected at no known time.
  unfoldable pub collect_members : Room → Map Bytes ℕ → Collected → Collected
  unfolding persistent_session
  collect_members room [] got = got
  collect_members room ((user_id, c) ∷ rest) got =
      let s = got.server in
      let session = member_session room user_id (s.client_at c) in
      collect_members room rest (record {
        server = set_client s c (record (s.client_at c) { session_token = token_of s c });
        users = insert user_id session got.users;
        sessions = got.sessions ++ persistent_session (token_of s c) session ∷ [];
      })

  unfoldable pub persist_room : Server → Room → List PersistentSession → Server × RoomRecord
  unfolding collect_members copied_sessions sort_by
  persist_room s room sessions =
      let got = collect_members room room.clients (record {
        server = s;
        users = copied_sessions s room.disconnected_users;
        sessions = sessions;
      }) in
      (
        got.server,
        record {
          room = record {
            code = room.code;
            host_id = room.state.host_id;
            owner_id = room.owner_id;
            track_revision = room.track_revision;
            state = some (record room.state { users = map mark_offline room.state.users });
            disconnected_users = got.users;
            pending_suggestions =
                sort_by (λ g. g.id) (map (λ entry. entry.1) room.pending_suggestions);
            host_disconnected_at = room.host_disconnected_at;
          };
          sessions = sort_by (λ p. p.token) got.sessions;
        },
      )

  -- The second loop of snapshotRooms, for json.Marshal (none is an error).
  unfoldable pub snapshot_from :
      (RoomRecord → Option Bytes) → Server → Map Bytes ℕ → Server × Option (Map Bytes Bytes)
  unfolding persist_room sessions_of
  snapshot_from encode s [] = (s, some [])
  snapshot_from encode s ((code, r) ∷ rest) =
      let (after, stored) = persist_room s (s.room_at r) (sessions_of s code s.sessions) in
      let (last, others) = snapshot_from encode after rest in
      elim (encode stored) [
        | none ↦ (after, none)
        | some wire ↦ elim others [
          | none ↦ (last, none)
          | some records ↦ (last, some ((code, wire) ∷ records))
        ]
      ]

  unfoldable pub snapshot_rooms :
      (RoomRecord → Option Bytes) → Server → Server × Option (Map Bytes Bytes)
  unfolding snapshot_from
  snapshot_rooms encode s = snapshot_from encode s s.rooms
