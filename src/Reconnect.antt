-- ===== src/Reconnect.antt =====
-- handleReconnect and replaceLiveSession of internal/server/lifecycle.go: a client takes back the seat
-- that its session token keeps. The flag `claimed` guards against a second attempt that runs at the same
-- time; a handler is one step here, so a refused attempt that would set and reset it leaves it alone.
use metroserver.Prelude.{
  ℕ, ◌+◌, Bool, true, false, not, ◌&&◌, ◌||◌, Option, none, some, List, [], ◌∷◌, ltb, if◌then◌else◌,
  filter, Bytes, bytes, nat_eq, bytes_eq_instance, ◌==◌, lookup, insert, delete,
}
use metroserver.Limits.{reconnect_grace_period}
use metroserver.Protocol.{ReconnectPayload, Message, reconnected, user_reconnected}
use metroserver.Validation.{clone_live_room_state}
use metroserver.World.{
  Env, Server, Room, Client, Session, set_outbox, set_room, points_to, is_some, can_host_client,
  try_set_room, apply_client, reply, send_error, send_message_to_clients, send_all, close_send_with,
  room_clients, set_connected,
}
use metroserver.Hosts.{HostChange, seat_host, host_change, announce_host, replay_host_work}
use metroserver.Lifecycle.{send_policy_queue_snapshot, handle_client_disconnect}

-- What the inner function claim answers.
pub data Claim : Type 0 where
  granted : ℕ → Claim
  session_not_found session_expired host_not_allowed : Claim

module _ (env : Env) where
  unfoldable pub claim : Server → ℕ → Bytes → Claim
  claim s c token = elim (lookup token s.sessions) [
    | none ↦ session_not_found
    | some n ↦
        if (s.session_at n).claimed
        then session_not_found
        else if ltb ((s.session_at n).disconnect_at + reconnect_grace_period) env.now
        then session_expired
        else if (s.session_at n).is_host && not (can_host_client s c)
        then host_not_allowed
        else granted n
  ]

  -- The loop of replaceLiveSession: another connection in a room that holds the token.
  unfoldable pub find_holder : Server → ℕ → Bytes → List ℕ → Option ℕ
  find_holder s c token [] = none
  find_holder s c token (d ∷ rest) =
      if not (d == c) && (s.client_at d).session_token == token && is_some (s.client_at d).room
      then some d
      else find_holder s c token rest

  -- replaceLiveSession
  unfoldable pub replace_live_session : Server → ℕ → Bytes → Bool × Server
  replace_live_session s c token = elim (find_holder s c token s.clients) [
    | none ↦ (false, s)
    | some old ↦
        let parted = handle_client_disconnect env s old in
        (true, set_outbox parted old (close_send_with (parted.outbox_at old) 0 []))
  ]

  -- The room takes the client back.
  unfoldable pub reseat : Room → ℕ → Bytes → Room
  reseat room c id = record room {
    clients = insert id c room.clients;
    disconnected_users = delete id room.disconnected_users;
    empty_since = none;
    state = record room.state { users = set_connected room.state.users id true };
  }

  -- The seat is still theirs, a deputy has it, or nobody has.
  unfoldable pub takes_host : Server → ℕ → Room → Bytes → Bool
  takes_host s c room id =
      can_host_client s c
      && ((room.state.host_id == id || room.owner_id == id)
          || not (is_some room.host) && room.state.host_id == [])

  abbrev pub release_owner : Bytes → Room → Room
  release_owner id room = record room {
    owner_id = if room.owner_id == id then [] else room.owner_id;
  }

  abbrev pub others : ℕ → Room → List ℕ
  others c room = filter (λ d. not (d == c)) (room_clients room)

  -- The client with the identity that the session kept.
  abbrev pub restored_client : ℕ → Session → Bytes → Client → Client
  restored_client r session token client = record (try_set_room r client) {
    id = session.user_id;
    username = session.username;
    session_token = token;
  }

  -- The messages after a reconnection.
  unfoldable pub deliver_reconnected :
      Server → ℕ → Room → Bytes → List Message → Option HostChange → Server
  deliver_reconnected s c room id notices change =
      let live = clone_live_room_state room.state env.now_ms in
      let replied = reply env s c (
        reconnected (record {
          room_code = room.code;
          user_id = id;
          state = live;
          is_host = points_to room.host c;
        })) in
      let noticed = send_all env (send_policy_queue_snapshot env replied c live) c notices in
      let told =
        send_message_to_clients env noticed (others c room)
          (user_reconnected (record { user_id = id; username = (s.client_at c).username })) in
      elim change [
        | none ↦ told
        | some ch ↦
            replay_host_work env (announce_host env told (others c room) ch.announce) (some c)
              ch.joins ch.suggestions
      ]

  -- What follows once every test has passed.
  unfoldable pub restore_member : Server → ℕ → Bytes → ℕ → Session → Server
  unfolding deliver_reconnected
  restore_member s c token r session =
      let id = session.user_id in
      let claimed =
        apply_client (record s { sessions = delete token s.sessions }) c
          (restored_client r session token) in
      let room = reseat (s.room_at r) c id in
      let hosts = takes_host s c room id in
      let seated = if hosts then release_owner id (seat_host claimed room (some c)) else room in
      let notices : List Message = elim (lookup id room.pending_notices) [
        | none ↦ []
        | some ms ↦ ms
      ] in
      let final = record seated { pending_notices = delete id seated.pending_notices } in
      deliver_reconnected (set_room claimed r final) c final id notices
        (if hosts then some (host_change claimed room (some c)) else none)

  unfoldable pub not_reconnectable : Server → ℕ → Server
  not_reconnectable s c =
      send_error env s c (bytes "session_not_found") (bytes "Session is no longer reconnectable")

  unfoldable pub resume : Server → ℕ → Bytes → ℕ → Server
  unfolding not_reconnectable
  resume s c token n =
      let session = s.session_at n in
      elim (lookup session.room_code s.rooms) [
        | none ↦
            send_error env (record s { sessions = delete token s.sessions }) c
              (bytes "room_not_found") (bytes "Room no longer exists")
        | some r ↦
            let room = s.room_at r in
            if not (points_to (lookup token s.sessions) n)
              || not (is_some (lookup session.user_id room.disconnected_users))
              || is_some (lookup session.user_id room.clients)
            then not_reconnectable s c
            else if is_some (s.client_at c).room
            then send_error env s c (bytes "already_in_room")
                (bytes "Leave the current room before reconnecting")
            else restore_member s c token r session
      ]

  -- The switch on the answer of claim.
  unfoldable pub settle_claim : Server → ℕ → Bytes → Claim → Server
  settle_claim s c token (granted n) = resume s c token n
  settle_claim s c token session_not_found =
      send_error env s c (bytes "session_not_found") (bytes "Session not found or expired")
  settle_claim s c token session_expired =
      send_error env s c (bytes "session_expired") (bytes "Session has expired")
  settle_claim s c token host_not_allowed =
      send_error env s c (bytes "host_not_allowed")
        (bytes "This client is not allowed to host rooms")

  -- A token that is not found may belong to a connection that is still open.
  unfoldable pub claim_or_replace : Server → ℕ → Bytes → Claim → Server
  claim_or_replace s c token session_not_found =
      let (replaced, s') = replace_live_session s c token in
      if replaced
      then settle_claim s' c token (claim s' c token)
      else settle_claim s c token session_not_found
  claim_or_replace s c token answer = settle_claim s c token answer

  -- A payload that does not decode is none.
  unfoldable pub handle_reconnect : Server → ℕ → Option ReconnectPayload → Server
  handle_reconnect s c none =
      send_error env s c (bytes "invalid_payload") (bytes "Invalid reconnect payload")
  handle_reconnect s c (some p) =
      if p.session_token == []
      then send_error env s c (bytes "missing_session_token") (bytes "Session token is required")
      else if is_some (s.client_at c).room
      then send_error env s c (bytes "already_in_room")
          (bytes "Leave the current room before reconnecting")
      else if is_some (s.client_at c).pending_room
      then send_error env s c (bytes "already_pending")
          (bytes "Cancel the pending join request before reconnecting")
      else claim_or_replace s c p.session_token (claim s c p.session_token)
