-- ===== src/Rooms.antt =====
-- internal/server/rooms.go: creating a room, and asking to join one. A payload that does not decode is
-- none. Each handler is one step: a test that the source repeats under a second lock stands here once.
pub mod Rates
use metroserver.Prelude.{
  ℕ, ◌+◌, Bool, true, false, not, ◌&&◌, Option, none, some, List, [], ◌∷◌, leb, if◌then◌else◌,
  length, take, filter, pos, Bytes, bytes, nat_eq, bytes_eq_instance, ◌==◌, Map, lookup, insert,
}
use metroserver.Limits.{
  max_rooms, max_clients_per_room, max_pending_joins, max_username_length, max_room_code_length,
  max_room_creates_per_source, room_create_window,
}
use metroserver.Protocol.{float_one, CreateRoomPayload, JoinRoomPayload, room_created, join_request}
use metroserver.Validation.{sanitize_string}
use metroserver.World.{
  Env, Server, Room, SourceWindow, set_room, points_to, is_some, can_host_client, try_set_room,
  apply_client, send_message, reply, send_error, room_members,
}

-- The client is the host and is connected.
unfoldable pub is_active_host : Room → ℕ → Bool
is_active_host room c = points_to room.host c && not (is_some room.host_disconnected_at)

-- The first room code that is free, of those that the generator gives in 100 tries.
unfoldable pub free_code : Map Bytes ℕ → List Bytes → Option Bytes
free_code rooms [] = none
free_code rooms (code ∷ rest) =
    if is_some (lookup code rooms) then free_code rooms rest else some code

unfoldable pub pick_code : Env → Server → Option Bytes
unfolding free_code
pick_code env s = elim (free_code s.rooms (take 100 env.room_codes)) [
  | none ↦ none
  | some code ↦ if code == [] then none else some code
]

module _ (env : Env) where
  unfoldable pub is_old_window : SourceWindow → Bool
  is_old_window w = leb (w.start + room_create_window) env.now

  -- A new window, which also clears the windows that are over.
  abbrev open_window : Map Bytes SourceWindow → Bytes → Map Bytes SourceWindow
  open_window creates source =
      insert source (record { start = env.now; count = 1 })
        (filter (λ e. not (is_old_window e.1)) creates)

  -- allowRoomCreate
  unfoldable pub allow_room_create : Map Bytes SourceWindow → Bytes → Bool × Map Bytes SourceWindow
  unfolding is_old_window
  allow_room_create creates source = elim (lookup source creates) [
    | none ↦ (true, open_window creates source)
    | some w ↦
        if is_old_window w
        then (true, open_window creates source)
        else if leb max_room_creates_per_source w.count
        then (false, creates)
        else (true, insert source (record w { count = w.count + 1 }) creates)
  ]

  unfoldable pub new_room : Bytes → Bytes → Bytes → ℕ → Room
  new_room code id username c = record {
    code = code;
    host = some c;
    clients = (id, c) ∷ [];
    pending_joins = [];
    pending_suggestions = [];
    disconnected_users = [];
    state = record {
      room_code = code;
      host_id = id;
      users =
          record { user_id = id; username = username; is_host = true; is_connected = true } ∷ [];
      current_track = none;
      is_playing = false;
      position = pos 0;
      last_update = env.now_ms;
      volume = float_one;
      queue = [];
      revision = 0;
      queue_title = [];
    };
    host_disconnected_at = none;
    empty_since = none;
    owner_id = [];
    last_host_sequence = 0;
    track_revision = 0;
    pending_notices = [];
  }

  unfoldable pub open_room : Server → ℕ → Bytes → Bytes → Server
  open_room s c code username =
      let id = (s.client_at c).id in
      let joined = apply_client s c (λ v. record (try_set_room s.next_room v) {
        username = username;
        session_token = env.fresh_token;
      }) in
      let opened = record (set_room joined s.next_room (new_room code id username c)) {
        rooms = insert code s.next_room s.rooms;
        next_room = s.next_room + 1;
      } in
      reply env opened c
        (room_created (record { room_code = code; user_id = id; session_token = env.fresh_token }))

  -- The rate limit counts only requests with a known source.
  unfoldable pub admit_room : Server → ℕ → Bytes → Bytes → Server
  admit_room s c code username =
      let (allowed, creates) = allow_room_create s.room_creates (s.client_at c).source in
      if (s.client_at c).source == []
      then open_room s c code username
      else if allowed
      then open_room (record s { room_creates = creates }) c code username
      else send_error env (record s { room_creates = creates }) c (bytes "rate_limited")
          (bytes "Too many rooms created; try again in a minute")

  unfoldable pub handle_create_room : Server → ℕ → Option CreateRoomPayload → Server
  handle_create_room s c payload =
      if not (can_host_client s c)
      then send_error env s c (bytes "host_not_allowed")
          (bytes "This client is not allowed to host rooms")
      else elim payload [
        | none ↦ send_error env s c (bytes "invalid_payload") (bytes "Invalid create room payload")
        | some p ↦
            let username = sanitize_string p.username max_username_length in
            if p.username == []
            then send_error env s c (bytes "missing_username") (bytes "Username is required")
            else if is_some (s.client_at c).room
            then send_error env s c (bytes "already_in_room")
                (bytes "Leave the current room before creating another")
            else if is_some (s.client_at c).pending_room
            then send_error env s c (bytes "already_pending")
                (bytes "Cancel the pending join request before creating a room")
            else if username == []
            then send_error env s c (bytes "invalid_username") (bytes "Username is invalid")
            else elim (pick_code env s) [
              | none ↦ send_error env s c (bytes "server_error") (bytes "Failed to create room")
              | some code ↦
                  if leb max_rooms (length s.rooms)
                  then send_error env s c (bytes "room_limit_reached")
                      (bytes "Server is at room capacity")
                  else admit_room s c code username
            ]
      ]

  -- The request waits for the host.
  unfoldable pub request_join : Server → ℕ → ℕ → Server
  request_join s c r =
      let room = s.room_at r in
      let id = (s.client_at c).id in
      let waiting =
        set_room
          (apply_client s c (λ v. record v { affiliation_started = true; pending_room = some r })) r
          (record room { pending_joins = insert id c room.pending_joins }) in
      let request = join_request (record { user_id = id; username = (s.client_at c).username }) in
      elim room.host [
        | none ↦ waiting
        | some h ↦
            if is_some room.host_disconnected_at
            then waiting
            else send_message env waiting h request
      ]

  unfoldable pub enter_room : Server → ℕ → ℕ → Server
  enter_room s c r =
      let room = s.room_at r in
      let id = (s.client_at c).id in
      if is_some (lookup id room.clients)
      then send_error env s c (bytes "already_in_room") (bytes "You are already in this room")
      else if is_some (lookup id room.pending_joins)
      then send_error env s c (bytes "already_pending")
          (bytes "Your join request is already pending")
      else if leb max_clients_per_room (room_members room)
      then send_error env s c (bytes "room_full") (bytes "Room is full")
      else if leb max_pending_joins (length room.pending_joins)
      then send_error env s c (bytes "too_many_pending") (bytes "Too many pending join requests")
      else if room.state.host_id == []
      then send_error env s c (bytes "room_invalid") (bytes "Room is no longer valid")
      else request_join s c r

  -- What follows the tests of the room code.
  unfoldable pub find_and_enter : Server → ℕ → Bytes → Bytes → Server
  find_and_enter s c username code = elim (lookup code s.rooms) [
    | none ↦ send_error env s c (bytes "room_not_found") (bytes "Room not found")
    | some r ↦ enter_room (apply_client s c (λ v. record v { username = username })) c r
  ]

  unfoldable pub handle_join_room : Server → ℕ → Option JoinRoomPayload → Server
  handle_join_room s c payload = elim payload [
    | none ↦ send_error env s c (bytes "invalid_payload") (bytes "Invalid join room payload")
    | some p ↦
        let username = sanitize_string p.username max_username_length in
        let code = sanitize_string (env.to_upper p.room_code) max_room_code_length in
        if p.username == []
        then send_error env s c (bytes "missing_username") (bytes "Username is required")
        else if is_some (s.client_at c).room
        then send_error env s c (bytes "already_in_room")
            (bytes "Leave the current room before joining another")
        else if is_some (s.client_at c).pending_room
        then send_error env s c (bytes "already_pending")
            (bytes "You already have a pending join request")
        else if username == []
        then send_error env s c (bytes "invalid_username") (bytes "Username is invalid")
        else if p.room_code == []
        then send_error env s c (bytes "missing_room_code") (bytes "Room code is required")
        else if code == []
        then send_error env s c (bytes "invalid_room_code") (bytes "Room code is invalid")
        else find_and_enter s c username code
  ]
