-- ===== src/Members.antt =====
-- internal/server/rooms.go: what the host decides about members and applicants, and leaving a room. A
-- payload that does not decode is none. Each handler is one step: a test that the source repeats under a
-- second lock stands here once.
use metroserver.Prelude.{
  ℕ, Bool, true, false, not, ◌&&◌, Option, none, some, [], ◌∷◌, ◌++◌, leb, if◌then◌else◌, filter,
  Bytes, bytes, nat_eq, bytes_eq_instance, ◌==◌, lookup, insert, delete,
}
use metroserver.Limits.{max_clients_per_room}
use metroserver.Protocol.{
  UserInfo, ApproveJoinPayload, UserReasonPayload, TransferHostPayload, UserPayload, join_approved,
  join_rejected, user_joined, user_left, kicked,
}
use metroserver.Validation.{sanitize_string, clone_live_room_state}
use metroserver.World.{
  Env, Server, Room, set_room, points_to, is_some, can_host_client, clear_room, clear_pending_room,
  try_set_room, apply_client, send_message, send_error, send_message_to_clients, room_clients,
  room_members,
}
use metroserver.Hosts.{seat_host, host_change, pick_deputy, deliver_host_change}
use metroserver.Lifecycle.{
  is_empty_room, forget_user, settle_departure, delete_room_if_empty, remove_pending_join,
  send_policy_queue_snapshot,
}
use metroserver.Rooms.{is_active_host}

module _ (env : Env) where
  -- The parts that most handlers begin with: the payload, the room of the client, and its host.
  abbrev with_payload : {A : Type 0} → Server → ℕ → Bytes → Option A → (A → Server) → Server
  with_payload s c problem payload next = elim payload [
    | none ↦ send_error env s c (bytes "invalid_payload") problem
    | some p ↦ next p
  ]

  abbrev with_room : Server → ℕ → (ℕ → Server) → Server
  with_room s c next = elim (s.client_at c).room [
    | none ↦ send_error env s c (bytes "not_in_room") (bytes "You are not in a room")
    | some r ↦ next r
  ]

  abbrev user_id_required : Server → ℕ → Server
  user_id_required s c = send_error env s c (bytes "missing_user_id") (bytes "User ID is required")

  -- The applicant is gone, or is in another room.
  unfoldable pub drop_applicant : Server → ℕ → ℕ → Bytes → Server
  drop_applicant s r joining id =
      apply_client
        (set_room s r
          (record (s.room_at r) { pending_joins = delete id (s.room_at r).pending_joins }))
        joining (clear_pending_room r)

  unfoldable pub admitted_room : Server → ℕ → ℕ → Bytes → Room
  admitted_room s r joining id =
      let room = s.room_at r in
      let user : UserInfo = record {
        user_id = (s.client_at joining).id;
        username = (s.client_at joining).username;
        is_host = false;
        is_connected = true;
      } in
      record room {
        pending_joins = delete id room.pending_joins;
        clients = insert (s.client_at joining).id joining room.clients;
        empty_since = none;
        state = record room.state { users = room.state.users ++ user ∷ [] };
      }

  unfoldable pub admit_member : Server → ℕ → ℕ → Bytes → Server
  admit_member s r joining id =
      let client = s.client_at joining in
      let room = admitted_room s r joining id in
      let moved = apply_client (set_room s r room) joining (λ v.
        record (clear_pending_room r (try_set_room r v)) { session_token = env.fresh_token }) in
      let live = clone_live_room_state room.state env.now_ms in
      let approved = send_message env moved joining (
        join_approved (record {
          room_code = room.code;
          user_id = client.id;
          session_token = env.fresh_token;
          state = live;
        })) in
      send_message_to_clients env (send_policy_queue_snapshot env approved joining live)
        (filter (λ d. not ((moved.client_at d).id == client.id)) (room_clients room))
        (user_joined (record { user_id = client.id; username = client.username }))

  -- The request is there.
  unfoldable pub judge_applicant : Server → ℕ → ℕ → ℕ → Bytes → Server
  judge_applicant s c r joining id =
      if (s.outbox_at joining).closed
      then send_error env (drop_applicant s r joining id) c (bytes "user_disconnected")
          (bytes "User has disconnected")
      else if leb max_clients_per_room (room_members (s.room_at r))
      then send_error env s c (bytes "room_full") (bytes "Room is full")
      else if is_some (s.client_at joining).room
      then send_error env
          (apply_client (drop_applicant s r joining id) joining
            (λ v. record v { affiliation_started = true }))
          c (bytes "user_unavailable") (bytes "User already joined another room")
      else admit_member s r joining id

  unfoldable pub handle_approve_join : Server → ℕ → Option ApproveJoinPayload → Server
  handle_approve_join s c payload =
      with_payload s c (bytes "Invalid approve join payload") payload λ p.
        if p.user_id == []
        then user_id_required s c
        else with_room s c λ r.
          if not (is_active_host (s.room_at r) c)
          then send_error env s c (bytes "not_host")
              (bytes "Only the host can approve join requests")
          else elim (lookup p.user_id (s.room_at r).pending_joins) [
            | none ↦
                send_error env s c (bytes "join_request_not_found") (bytes "Join request not found")
            | some joining ↦ judge_applicant s c r joining p.user_id
          ]

  abbrev reason_or : Bytes → Bytes → Bytes
  reason_or text default =
      let reason = sanitize_string text 200 in if reason == [] then default else reason

  unfoldable pub handle_reject_join : Server → ℕ → Option UserReasonPayload → Server
  handle_reject_join s c payload =
      with_payload s c (bytes "Invalid reject join payload") payload λ p.
        if p.user_id == []
        then user_id_required s c
        else with_room s c λ r.
          if not (is_active_host (s.room_at r) c)
          then send_error env s c (bytes "not_host")
              (bytes "Only the host can reject join requests")
          else elim (lookup p.user_id (s.room_at r).pending_joins) [
            | none ↦
                send_error env s c (bytes "join_request_not_found") (bytes "Join request not found")
            | some joining ↦
                drop_applicant
                  (send_message env s joining
                    (join_rejected (reason_or p.reason (bytes "Join request rejected by host"))))
                  r joining p.user_id
          ]

  -- The room without a member who is kicked.
  unfoldable pub kicked_room : Room → Bytes → Room
  kicked_room room id =
      let left =
        if is_some (lookup id room.clients)
        then record room { clients = delete id room.clients }
        else record room { disconnected_users = delete id room.disconnected_users } in
      forget_user id left

  abbrev kicked_name : Server → Option ℕ → Option ℕ → Bytes
  kicked_name s (some d) away = (s.client_at d).username
  kicked_name s none (some n) = (s.session_at n).username
  kicked_name s none none = []

  -- A connected member is told and detached; the tokens of one who is away are revoked.
  unfoldable pub detach_kicked : Server → ℕ → Bytes → Bytes → Option ℕ → Server
  detach_kicked s r id reason (some d) =
      apply_client (send_message env s d (kicked reason)) d (clear_room r)
  detach_kicked s r id reason none = record s {
    sessions =
        filter
          (λ e. not (
            (s.session_at e.1).room_code == (s.room_at r).code && (s.session_at e.1).user_id == id))
          s.sessions;
  }

  unfoldable pub kick_member : Server → ℕ → Bytes → Bytes → Server
  kick_member s r id reason =
      let room = s.room_at r in
      let target = lookup id room.clients in
      let left = kicked_room room id in
      send_message_to_clients env (set_room (detach_kicked s r id reason target) r left)
        (room_clients left)
        (user_left (record {
          user_id = id;
          username = kicked_name s target (lookup id room.disconnected_users);
        }))

  unfoldable pub handle_kick_user : Server → ℕ → Option UserReasonPayload → Server
  handle_kick_user s c payload = with_payload s c (bytes "Invalid kick user payload") payload λ p.
      if p.user_id == []
      then user_id_required s c
      else with_room s c λ r.
        let room = s.room_at r in
        if not (is_active_host room c)
        then send_error env s c (bytes "not_host") (bytes "Only the host can kick users")
        else if p.user_id == (s.client_at c).id
        then send_error env s c (bytes "cannot_kick_self") (bytes "You cannot kick yourself")
        else if not (is_some (lookup p.user_id room.clients))
            && not (is_some (lookup p.user_id room.disconnected_users))
        then send_error env s c (bytes "user_not_found") (bytes "User not found in room")
        else kick_member s r p.user_id
            (reason_or p.reason (bytes "You have been kicked from the room"))

  -- An explicit hand-off ends the claim of an earlier owner.
  unfoldable pub transfer_to : Server → ℕ → ℕ → Server
  transfer_to s r d =
      let room = record (s.room_at r) { owner_id = [] } in
      deliver_host_change env (set_room s r (seat_host s room (some d))) (room_clients room)
        (some (host_change s room (some d)))

  unfoldable pub offer_host : Server → ℕ → ℕ → Option ℕ → Server
  offer_host s c r none =
      send_error env s c (bytes "user_not_found") (bytes "Target user not found in room")
  offer_host s c r (some d) =
      if (s.outbox_at d).closed
      then send_error env s c (bytes "user_not_found") (bytes "Target user not found in room")
      else if not (can_host_client s d)
      then send_error env s c (bytes "host_not_allowed")
          (bytes "That user's client is not allowed to host rooms")
      else transfer_to s r d

  unfoldable pub handle_transfer_host : Server → ℕ → Option TransferHostPayload → Server
  handle_transfer_host s c payload =
      with_payload s c (bytes "Invalid transfer host payload") payload λ p.
        if p.new_host_id == []
        then send_error env s c (bytes "missing_user_id") (bytes "New host user ID is required")
        else with_room s c λ r.
          if not (is_active_host (s.room_at r) c)
          then send_error env s c (bytes "not_host") (bytes "Only the host can transfer ownership")
          else if p.new_host_id == (s.client_at c).id
          then send_error env s c (bytes "cannot_transfer_to_self")
              (bytes "You are already the host")
          else offer_host s c r (lookup p.new_host_id (s.room_at r).clients)

  -- The room after a member left for good.
  unfoldable pub left_room : Room → Bytes → Room
  left_room room id = forget_user id (record room {
    clients = delete id room.clients;
    pending_joins = delete id room.pending_joins;
    disconnected_users = delete id room.disconnected_users;
  })

  abbrev pub drop_session : Bytes → Server → Server
  drop_session token s = record s {
    sessions = if token == [] then s.sessions else delete token s.sessions;
  }

  -- Somebody is left in the room.
  unfoldable pub depart : Server → ℕ → Room → Bool → UserPayload → Bytes → Server
  depart s r left was_host user token =
      let deputy = pick_deputy s left.clients in
      let seated = if was_host then seat_host s left deputy else left in
      settle_departure env (drop_session token (set_room s r seated)) r seated user
        (if was_host then some (host_change s left deputy) else none)

  unfoldable pub leave_from : Server → ℕ → ℕ → Server
  leave_from s c r =
      let room = s.room_at r in
      let client = s.client_at c in
      if not (points_to (lookup client.id room.clients) c)
      then apply_client s c (clear_room r)
      else let left = left_room room client.id in
        let freed = apply_client s c (clear_room r) in
        if is_empty_room left
        then (delete_room_if_empty env
            (drop_session client.session_token
              (set_room freed r (record left { empty_since = some env.now })))
            r).1
        else depart freed r left (points_to room.host c)
            (record { user_id = client.id; username = client.username }) client.session_token

  -- leaveRoom. A fresh ID makes a delayed approval of a cancelled request miss.
  unfoldable pub leave_room : Server → ℕ → Server
  leave_room s c = elim (s.client_at c).room [
    | none ↦ apply_client (remove_pending_join env s c) c (λ v. record v { id = env.fresh_user_id })
    | some r ↦ leave_from s c r
  ]
