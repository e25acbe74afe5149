-- ===== src/Restore.antt =====
-- restoreRoomLocked of internal/server/persistence.go: the rooms of the database come back, with every member
-- disconnected since the server stopped, and with the tokens that reconnect.
pub mod Seats
pub mod Rejoining
pub mod RoundTrip
use metroserver.Prelude.{
  ℕ, ◌+◌, Bool, true, false, not, ◌&&◌, Option, none, some, List, [], ◌∷◌, map, length, ltb, ℤ, pos,
  ltb_ℤ, leb_ℤ, Bytes, Map, lookup, insert, if◌then◌else◌, nat_eq, bytes_eq_instance, ◌==◌,
}
use metroserver.Protocol.{RoomState}
use metroserver.Validation.{live_playback_position}
use metroserver.Queue.{sanitize_queue}
use metroserver.World.{Server, Room, Session, Suggestion, set_room, set_session, without_user}
use metroserver.Snapshot.{PersistentSession, PersistentRoom, RoomRecord, mark_offline}

-- When a member was lost: a stored time, or the time of the stop, moved by the time offline.
abbrev pub disconnected_at : ℕ → ℕ → ℕ → ℕ
disconnected_at stopped_at offline t = (if t == 0 then stopped_at else t) + offline

-- A track that has run past its end is parked there.
unfoldable pub park_track : ℤ → RoomState → RoomState
park_track now_ms state = elim state.current_track [
  | none ↦ state
  | some t ↦
      if state.is_playing
        && (ltb_ℤ (pos 0) t.duration && leb_ℤ t.duration (live_playback_position state now_ms))
      then record state { is_playing = false; position = t.duration; last_update = now_ms }
      else state
]

unfoldable pub restored_state : ℤ → RoomState → RoomState
unfolding park_track
restored_state now_ms state =
    park_track now_ms
      (record state { users = map mark_offline state.users; queue = sanitize_queue state.queue })

-- Whether a token leads to a user.
unfoldable pub is_reconnectable : List PersistentSession → Bytes → Bool
is_reconnectable [] user_id = false
is_reconnectable (p ∷ rest) user_id =
    let others = is_reconnectable rest user_id in
    if not (p.token == []) && p.user_id == user_id then true else others

-- A new session on the heap.
abbrev pub allocate_session : Server → Session → Server
allocate_session s session = record (set_session s s.next_session session) {
  next_session = s.next_session + 1;
}

-- The loop over the disconnected users: those whom no token leads to are dropped, if there are tokens.
unfoldable pub restore_users :
    (ℕ → ℕ) → List PersistentSession → Map Bytes Session → Server → Room → Server × Room
unfolding is_reconnectable
restore_users moved sessions [] s room = (s, room)
restore_users moved sessions ((user_id, session) ∷ rest) s room =
    let dropped = restore_users moved sessions rest s (record room {
      state = record room.state { users = without_user room.state.users user_id };
    }) in
    let kept =
      restore_users moved sessions rest
        (allocate_session s (record session { disconnect_at = moved session.disconnect_at }))
        (record room {
          disconnected_users = insert user_id s.next_session room.disconnected_users;
        }) in
    if not (is_reconnectable sessions user_id) && ltb 0 (length sessions) then dropped else kept

-- The loop over the suggestions.
unfoldable pub restore_suggestions : List Suggestion → Map Bytes Suggestion → Map Bytes Suggestion
restore_suggestions [] m = m
restore_suggestions (g ∷ rest) m = restore_suggestions rest (insert g.id g m)

-- A session under its token.
abbrev pub add_session : Bytes → Session → Server → Server
add_session token session s = record (allocate_session s session) {
  sessions = insert token s.next_session s.sessions;
}

abbrev pub restored_session : (ℕ → ℕ) → PersistentSession → Session
restored_session moved p = record {
  user_id = p.user_id;
  username = p.username;
  room_code = p.room_code;
  is_host = p.is_host;
  disconnect_at = moved p.disconnect_at;
  claimed = false;
}

-- The loop over the sessions.
unfoldable pub restore_sessions : (ℕ → ℕ) → List PersistentSession → Server → Server
restore_sessions moved [] s = s
restore_sessions moved (p ∷ rest) s =
    restore_sessions moved rest
      (if p.token == [] then s else add_session p.token (restored_session moved p) s)

-- Since when the restored room has no host.
unfoldable pub host_lost_at : ℕ → PersistentRoom → Server → Room → Option ℕ
host_lost_at offline stored s room = elim stored.host_disconnected_at [
  | some t ↦ some (t + offline)
  | none ↦
      if stored.host_id == [] then none else elim (lookup stored.host_id room.disconnected_users) [
        | none ↦ none
        | some n ↦ some (s.session_at n).disconnect_at
      ]
]

-- The room before its users are restored.
unfoldable pub empty_restored_room : PersistentRoom → RoomState → Room
unfolding restore_suggestions
empty_restored_room stored state = record {
  code = stored.code;
  host = none;
  clients = [];
  pending_joins = [];
  pending_suggestions = restore_suggestions stored.pending_suggestions [];
  disconnected_users = [];
  state = state;
  host_disconnected_at = none;
  empty_since = none;
  owner_id = stored.owner_id;
  last_host_sequence = 0;
  track_revision = stored.track_revision;
  pending_notices = [];
}

-- The room goes into the table.
abbrev pub add_room : Bytes → Room → Server → Server
add_room code room s = record (set_room s s.next_room room) {
  rooms = insert code s.next_room s.rooms;
  next_room = s.next_room + 1;
}

-- restoreRoomLocked, for the time of the stop (that of the last flush, or now), the time offline, and the
-- clock in milliseconds.
unfoldable pub restore_room : ℕ → ℕ → ℤ → RoomRecord → Server → Server
unfolding restored_state restore_users host_lost_at empty_restored_room restore_sessions
restore_room stopped_at offline now_ms stored s = elim stored.room.state [
  | none ↦ s
  | some state ↦
      let moved = disconnected_at stopped_at offline in
      let (peopled, room) =
        restore_users moved stored.sessions stored.room.disconnected_users s
          (empty_restored_room stored.room (restored_state now_ms state)) in
      restore_sessions moved stored.sessions (
        add_room stored.room.code
          (record room { host_disconnected_at = host_lost_at offline stored.room peopled room })
          peopled)
]

unfoldable pub restore_rooms : ℕ → ℕ → ℤ → List RoomRecord → Server → Server
unfolding restore_room
restore_rooms stopped_at offline now_ms [] s = s
restore_rooms stopped_at offline now_ms (stored ∷ rest) s =
    restore_rooms stopped_at offline now_ms rest (restore_room stopped_at offline now_ms stored s)
