-- ===== src/Dispatch/Playing.antt =====
-- The handlers of internal/server/playback.go and handlePing of server.go keep, in every room, a property
-- that is closed under the operations on rooms.
use metroserver.Prelude.{
  ℕ, not, ◌&&◌, ◌||◌, Option, [], leb, some_keeps, ℤ, Bytes, nat_eq, bytes_eq_instance, ◌==◌,
}
use metroserver.Protocol.{
  PlaybackActionPayload, BufferReadyPayload, PingPayload, Action, action_of, TrackInfo,
  feature_request_id,
}
use metroserver.Playback.{Verdict, applied, refused, silent}
use metroserver.Playback.Invariant.{Leaves}
use metroserver.World.{has_feature, allow_sync_response}
use metroserver.Sync.{
  controls_playback, is_member, publish_action, settle_action, run_action, sequence_action,
  handle_playback_action, confirm_buffer, handle_buffer_ready, handle_request_sync,
  is_state_mismatch, room_pong, answer_ping, handle_ping,
}
use metroserver.World.{send_error}
use metroserver.World.{Env, Server, Room, points_to}
use metroserver.Dispatch.Operations.{IsClosed}
use metroserver.Dispatch.Closure.{
  RoomsHave, either-RoomsHave, set_room-RoomsHave, set_outbox-RoomsHave, send_error-RoomsHave,
  send_message-RoomsHave, reply-RoomsHave, send_message_to_clients-RoomsHave, queue_pong-RoomsHave,
}

module _ {P : ℕ → Room → Type 0} (k : IsClosed P) (env : Env) where
  settle_action-RoomsHave :
      {s : Server} (c r : ℕ) (a : Option Action) (v : Verdict)
      → RoomsHave P s
      → Leaves (λ state. P r (record (s.room_at r) { state = state })) v
      → RoomsHave P (settle_action env s c r a v)
  unfolding settle_action publish_action
  settle_action-RoomsHave {s} c r a (applied state p) h hv =
      send_message_to_clients-RoomsHave env _ _
        (set_room-RoomsHave r _ h (k.publish r (s.room_at r) state _ _ hv))
  settle_action-RoomsHave c r a (refused state e) h hv =
      send_error-RoomsHave env c _ _ (set_room-RoomsHave r _ h hv)
  settle_action-RoomsHave c r a silent h hv = h

  run_action-RoomsHave :
      {s : Server} (c r : ℕ) (p : PlaybackActionPayload)
      → RoomsHave P s
      → RoomsHave P (run_action env s c r p)
  unfolding run_action
  run_action-RoomsHave {s} c r p h =
      settle_action-RoomsHave c r _ _ h
        (k.play r (s.room_at r) (action_of p.action) p env.now_ms (s.client_at c).rtt_ms (h.at r))

  sequence_action-RoomsHave :
      {s : Server} (c r : ℕ) (p : PlaybackActionPayload)
      → RoomsHave P s
      → RoomsHave P (sequence_action env s c r p)
  unfolding sequence_action
  sequence_action-RoomsHave {s} c r p h =
      let room = s.room_at r in
      either-RoomsHave (p.host_sequence == 0) (run_action-RoomsHave c r p h) (
        either-RoomsHave (leb p.host_sequence room.last_host_sequence)
          (send_error-RoomsHave env c _ _ h)
          (run_action-RoomsHave c r p (
            set_room-RoomsHave r (record room { last_host_sequence = p.host_sequence }) h
              (k.sequence r room p.host_sequence (h.at r)))))

  pub handle_playback_action-RoomsHave :
      {s : Server} (c : ℕ) (p : Option PlaybackActionPayload)
      → RoomsHave P s
      → RoomsHave P (handle_playback_action env s c p)
  unfolding handle_playback_action
  handle_playback_action-RoomsHave {s} c payload h =
      let no : (a b : Bytes) → RoomsHave P (send_error env s c a b) =
        λ a b. send_error-RoomsHave env c a b h in
      some_keeps (RoomsHave P) (s.client_at c).room (λ _. no _ _)
        λ r _. either-RoomsHave (not (controls_playback s c (s.room_at r))) (no _ _) (
          some_keeps (RoomsHave P) payload (λ _. no _ _)
            λ p _. either-RoomsHave (p.action == []) (no _ _) (sequence_action-RoomsHave c r _ h))

  confirm_buffer-RoomsHave :
      {s : Server} (c : ℕ) (room : Room) (t : TrackInfo)
      → RoomsHave P s
      → RoomsHave P (confirm_buffer env s c room t)
  unfolding confirm_buffer
  confirm_buffer-RoomsHave c room t h = reply-RoomsHave env c _ (
      either-RoomsHave (points_to room.host c) h
        (send_message-RoomsHave env c _ (send_message-RoomsHave env c _ h)))

  pub handle_buffer_ready-RoomsHave :
      {s : Server} (c : ℕ) (p : Option BufferReadyPayload)
      → RoomsHave P s
      → RoomsHave P (handle_buffer_ready env s c p)
  unfolding handle_buffer_ready
  handle_buffer_ready-RoomsHave {s} c payload h =
      let no : (a b : Bytes) → RoomsHave P (send_error env s c a b) =
        λ a b. send_error-RoomsHave env c a b h in
      some_keeps (RoomsHave P) payload (λ _. no _ _)
        λ p _. either-RoomsHave (p.track_id == []) (no _ _) (
          some_keeps (RoomsHave P) (s.client_at c).room (λ _. no _ _)
            λ r _.
              let room = s.room_at r in
              either-RoomsHave (not (is_member s c room)) (no _ _) (
                some_keeps (RoomsHave P) room.state.current_track (λ _. no _ _)
                  λ t _.
                    either-RoomsHave
                      (not (p.track_id == t.id)
                        || not (p.track_revision == 0)
                          && not (p.track_revision == room.track_revision))
                      (no _ _) (confirm_buffer-RoomsHave c room t h)))

  pub handle_request_sync-RoomsHave :
      {s : Server} (c : ℕ) → RoomsHave P s → RoomsHave P (handle_request_sync env s c)
  unfolding handle_request_sync
  handle_request_sync-RoomsHave {s} c h =
      let no : (a b : Bytes) → RoomsHave P (send_error env s c a b) =
        λ a b. send_error-RoomsHave env c a b h in
      some_keeps (RoomsHave P) (s.client_at c).room (λ _. no _ _)
        λ r _. either-RoomsHave (not (is_member s c (s.room_at r))) (no _ _) (
          either-RoomsHave (allow_sync_response env (s.outbox_at c)).0
            (reply-RoomsHave env c _
              (set_outbox-RoomsHave c (allow_sync_response env (s.outbox_at c)).1 h))
            (either-RoomsHave (has_feature s c feature_request_id) (no _ _) h))

  answer_ping-RoomsHave :
      {s : Server} (c : ℕ) (room : Room) (p : PingPayload) (received_at : ℤ)
      → RoomsHave P s
      → RoomsHave P (answer_ping env s c room p received_at)
  unfolding answer_ping
  answer_ping-RoomsHave {s} c room p received_at h =
      let plain = queue_pong-RoomsHave env c (room_pong env s c room p received_at) h in
      either-RoomsHave (is_state_mismatch env s c room p)
        (either-RoomsHave (allow_sync_response env (s.outbox_at c)).0
          (send_message-RoomsHave env c _ (
            queue_pong-RoomsHave env c _
              (set_outbox-RoomsHave c (allow_sync_response env (s.outbox_at c)).1 h)))
          plain)
        plain

  pub handle_ping-RoomsHave :
      {s : Server} (c : ℕ) (p : Option PingPayload) (received_at : ℤ)
      → RoomsHave P s
      → RoomsHave P (handle_ping env s c p received_at)
  unfolding handle_ping
  handle_ping-RoomsHave {s} c payload received_at h =
      some_keeps (RoomsHave P) payload (λ _. send_error-RoomsHave env c _ _ h)
        λ p _.
          some_keeps (RoomsHave P) (s.client_at c).room (λ _. queue_pong-RoomsHave env c _ h)
            λ r _.
              either-RoomsHave ((p.has_position || p.has_state_hash) && is_member s c (s.room_at r))
                (answer_ping-RoomsHave c (s.room_at r) p received_at h)
                (queue_pong-RoomsHave env c _ h)
