-- ===== src/Lifecycle.antt =====
-- internal/server/lifecycle.go: disconnections, reconnections, expiry and the removal of rooms. Each
-- function is one step: a test that the source repeats under a second lock stands here once.
use metroserver.Prelude.{
  ℕ, ◌+◌, Bool, true, false, not, ◌&&◌, ◌||◌, Option, none, some, List, [], ◌∷◌, map, ltb,
  if◌then◌else◌, length, filter, Bytes, bytes, nat_eq, bytes_eq_instance, ◌==◌, Map, lookup, insert,
  delete,
}
use metroserver.Limits.{
  reconnect_grace_period, empty_room_cleanup_timeout, min_room_retention_after_restart,
}
use metroserver.Protocol.{
  RoomState, UserPayload, zero_playback, join_rejected, user_left, sync_playback, user_disconnected,
  action_name, sync_queue,
}
use metroserver.Policy.{allow, block, tier_beq}
use metroserver.World.{
  Env, Server, Room, Session, set_outbox, set_room, set_session, points_to, is_some, clear_room,
  clear_pending_room, apply_client, send_message, send_message_to_clients, close_send_with,
  room_clients, remove_user_suggestions, without_user, set_connected,
}
use metroserver.Hosts.{
  HostChange, seat_host, host_change, pick_deputy, hostless_dead, deliver_host_change, close_room,
  no_host_left_reason, dismiss_all,
}

abbrev pub is_empty_room : Room → Bool
is_empty_room room = length room.clients == 0 && length room.disconnected_users == 0

abbrev pub forget_owner : Bytes → Room → Room
forget_owner user_id room = record room {
  owner_id = if room.owner_id == user_id then [] else room.owner_id;
}

-- What every removal of a member clears in the room, besides the member's own entries.
unfoldable pub forget_user : Bytes → Room → Room
forget_user user_id room =
    let room' = remove_user_suggestions (forget_owner user_id room) user_id in
    record room' {
      pending_notices = delete user_id room'.pending_notices;
      state = record room'.state { users = without_user room'.state.users user_id };
    }

-- The tiers whose queue the server does not rewrite.
unfoldable pub is_served_plainly : Server → ℕ → Bool
is_served_plainly s c =
    tier_beq (s.client_at c).ua_tier allow || tier_beq (s.client_at c).ua_tier block

module _ (env : Env) where
  -- deleteRoomIfEmpty, with its answer.
  unfoldable pub delete_room_if_empty : Server → ℕ → Bool × Server
  delete_room_if_empty s r =
      let room = s.room_at r in
      if not (points_to (lookup room.code s.rooms) r)
      then (false, s)
      else if not (is_empty_room room)
      then (false, s)
      else let told =
          dismiss_all env (clear_pending_room r)
            (join_rejected (bytes "Room is no longer available")) s room.pending_joins in
        (
          true,
          record (set_room told r (record room { pending_joins = [] })) {
            rooms = delete room.code s.rooms;
          },
        )

  -- removePendingJoin
  unfoldable pub remove_pending_join : Server → ℕ → Server
  remove_pending_join s c = elim (s.client_at c).pending_room [
    | none ↦ s
    | some r ↦
        let room = s.room_at r in
        let id = (s.client_at c).id in
        let cleared =
          if points_to (lookup id room.pending_joins) c
          then record room { pending_joins = delete id room.pending_joins }
          else room in
        apply_client (set_room s r cleared) c (clear_pending_room r)
  ]

  -- sendPolicyQueueSnapshot (playback.go)
  unfoldable pub send_policy_queue_snapshot : Server → ℕ → RoomState → Server
  send_policy_queue_snapshot s c state =
      let track_id : Bytes = elim state.current_track [ none ↦ [] | some t ↦ t.id ] in
      if is_served_plainly s c
      then s
      else send_message env s c (
          sync_playback (record zero_playback {
            action = action_name sync_queue;
            track_id = track_id;
            queue = state.queue;
            position = state.position;
            server_time = state.last_update;
            revision = state.revision;
          }))

  -- The session token of a client that disconnects.
  abbrev pub token_or_fresh : Bytes → Bytes
  token_or_fresh token = if token == [] then env.fresh_token else token

  -- The room after a member's connection is gone: the member keeps a seat.
  unfoldable pub park_member : Room → ℕ → Bytes → ℕ → Room
  park_member room c id session = record room {
    clients = delete id room.clients;
    disconnected_users = insert id session room.disconnected_users;
    state = record room.state { users = set_connected room.state.users id false };
    host = if points_to room.host c then none else room.host;
    host_disconnected_at =
        if points_to room.host c then some env.now else room.host_disconnected_at;
    empty_since = none;
  }

  unfoldable pub new_session : Server → ℕ → Room → Session
  new_session s c room = record {
    user_id = (s.client_at c).id;
    username = (s.client_at c).username;
    room_code = room.code;
    is_host = points_to room.host c;
    disconnect_at = env.now;
    claimed = false;
  }

  -- handleClientDisconnect
  unfoldable pub handle_client_disconnect : Server → ℕ → Server
  handle_client_disconnect s c = elim (s.client_at c).room [
    | none ↦ s
    | some r ↦
        let room = s.room_at r in
        let id = (s.client_at c).id in
        let token = token_or_fresh (s.client_at c).session_token in
        let named = apply_client s c (λ v. record v { session_token = token }) in
        if not (points_to (lookup id room.clients) c)
        then apply_client named c (clear_room r)
        else let parked = park_member room c id s.next_session in
          let moved =
            apply_client
              (record (set_room (set_session named s.next_session (new_session s c room)) r
                parked) {
                  sessions = insert token s.next_session s.sessions;
                  next_session = s.next_session + 1;
                })
              c (clear_room r) in
          send_message_to_clients env moved (room_clients parked)
            (user_disconnected (record { user_id = id; username = (s.client_at c).username }))
  ]

  -- removeClient
  unfoldable pub remove_client : Server → ℕ → Server
  remove_client s c =
      let closed =
        set_outbox (record s { clients = filter (λ d. not (d == c)) s.clients }) c
          (close_send_with (s.outbox_at c) 0 []) in
      if is_some (s.client_at c).room
      then handle_client_disconnect closed c
      else remove_pending_join closed c

  -- What follows when a member is gone for good and somebody is left: the others hear of it and of a new
  -- host, and a room that nobody may host closes. (In expireSession and in leaveRoom.)
  unfoldable pub settle_departure : Server → ℕ → Room → UserPayload → Option HostChange → Server
  settle_departure s r room user change =
      let told =
        deliver_host_change env (send_message_to_clients env s (room_clients room) (user_left user))
          (room_clients room) change in
      if hostless_dead room then close_room env told r no_host_left_reason else told

  -- expireSession; `past_retention` says that the time to keep rooms after a restart is over.
  unfoldable pub expire_session : Server → ℕ → Session → Bool → Server
  expire_session s r session past_retention =
      let room = s.room_at r in
      let id = session.user_id in
      if not (is_some (lookup id room.disconnected_users))
      then s
      else let left =
          forget_user id (record room { disconnected_users = delete id room.disconnected_users }) in
        let was_host = room.state.host_id == id in
        let deputy = pick_deputy s room.clients in
        let seated = if was_host then seat_host s left deputy else left in
        let s' = set_room s r seated in
        if is_empty_room seated && past_retention
        then (delete_room_if_empty s' r).1
        else settle_departure s' r seated (record { user_id = id; username = session.username })
            (if was_host then some (host_change s left deputy) else none)

  unfoldable pub is_expired : Session → Bool
  is_expired session = ltb (session.disconnect_at + reconnect_grace_period) env.now

  unfoldable pub past_retention : Server → Bool
  past_retention s = ltb (s.start_time + min_room_retention_after_restart) env.now

  unfoldable pub expire_each : Server → List ℕ → Server
  unfolding past_retention
  expire_each s [] = s
  expire_each s (n ∷ rest) =
      let session = s.session_at n in
      let next : Server = elim (lookup session.room_code s.rooms) [
        | none ↦ s
        | some r ↦ expire_session s r session (past_retention s)
      ] in
      expire_each next rest

  -- cleanupExpiredSessionsOnce
  unfoldable pub cleanup_expired_sessions_once : Server → Server
  unfolding is_expired expire_each
  cleanup_expired_sessions_once s =
      let expired = filter (λ e. is_expired (s.session_at e.1)) s.sessions in
      let kept = filter (λ e. not (is_expired (s.session_at e.1))) s.sessions in
      expire_each (record s { sessions = kept }) (map (λ e. e.1) expired)

  unfoldable pub cleanup_room : Server → ℕ → Server
  unfolding past_retention
  cleanup_room s r =
      let room = s.room_at r in
      if not (is_empty_room room) then s else elim room.empty_since [
        | none ↦ set_room s r (record room { empty_since = some env.now })
        | some since ↦
            if ltb (since + empty_room_cleanup_timeout) env.now && past_retention s
            then (delete_room_if_empty s r).1
            else s
      ]

  unfoldable pub cleanup_each : Server → Map Bytes ℕ → Server
  unfolding cleanup_room
  cleanup_each s [] = s
  cleanup_each s ((code, r) ∷ rest) = cleanup_each (cleanup_room s r) rest

  -- cleanupEmptyRoomsOnce
  unfoldable pub cleanup_empty_rooms_once : Server → Server
  unfolding cleanup_each
  cleanup_empty_rooms_once s = cleanup_each s s.rooms
