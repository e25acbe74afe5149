-- ===== src/Sync.antt =====
-- The playback messages: handlePlaybackAction, handleBufferReady and handleRequestSync of
-- internal/server/playback.go, and handlePing of internal/server/server.go. A payload that does not
-- decode is none. Each handler is one step: a test that the source repeats under a second lock stands
-- here once.
pub mod Revision
use metroserver.Prelude.{
  ℕ, zero, suc, ◌/◌, ◌%◌, Bool, false, not, ◌&&◌, ◌||◌, Option, none, some, List, [], ◌∷◌, ◌++◌,
  leb, if◌then◌else◌, filter, ℤ, pos, ◌-ℤ◌, leb_ℤ, wrap64, Bytes, bytes, nat_eq, bytes_eq_instance,
  ◌==◌, lookup,
}
use metroserver.Protocol.{
  TrackInfo, RoomState, PlaybackActionPayload, zero_playback, ErrorPayload, sync_playback,
  sync_state, buffer_complete, feature_update_track, feature_request_id, action_of, action_name,
  play, pause, seek, BufferReadyPayload,
}
use metroserver.Validation.{sanitize_string, live_playback_position}
use metroserver.Playback.{
  next_revision, applied, refused, silent, apply_action, outgoing_action, is_change_track,
  is_update_track, sync_snapshot,
}
use metroserver.World.{
  Env, Server, Room, set_outbox, set_room, points_to, is_some, has_feature, queue_pong,
  send_message, reply, send_error, send_message_to_clients, allow_sync_response, room_clients,
}
use Prim.Native.Nat.{bit_xor}
use metroserver.Limits.{max_track_title_length}
use metroserver.Protocol.{PingPayload, PongPayload, Action}
use metroserver.Policy.{is_rickroll}
use metroserver.Playback.{Verdict}

-- hash/crc32's IEEE polynomial, bit by bit.
crc_bits : ℕ → ℕ → ℕ
crc_bits zero crc = crc
crc_bits (suc n) crc = crc_bits n (if crc % 2 == 1 then bit_xor (crc / 2) 0xEDB88320 else crc / 2)

crc_write : ℕ → Bytes → ℕ
unfolding crc_bits
crc_write crc [] = crc
crc_write crc (b ∷ rest) = crc_write (crc_bits 8 (bit_xor crc b)) rest

abbrev newline : Bytes
newline = 10 ∷ []

hashed_ids : List TrackInfo → Bytes
hashed_ids [] = []
hashed_ids (t ∷ rest) = t.id ++ (newline ++ hashed_ids rest)

-- roomStateHash
unfoldable pub room_state_hash : RoomState → ℕ
unfolding crc_write hashed_ids
room_state_hash state =
    let current : Bytes = elim state.current_track [ none ↦ [] | some t ↦ t.id ] in
    bit_xor (crc_write 0xFFFFFFFF (current ++ (newline ++ hashed_ids state.queue))) 0xFFFFFFFF

-- The client may control playback.
unfoldable pub controls_playback : Server → ℕ → Room → Bool
controls_playback s c room =
    points_to room.host c
    && not (is_some room.host_disconnected_at)
    && points_to (lookup (s.client_at c).id room.clients) c

-- The member entry of the client is the client itself.
abbrev pub is_member : Server → ℕ → Room → Bool
is_member s c room = points_to (lookup (s.client_at c).id room.clients) c

abbrev pub fault_out : ErrorPayload → Bytes × Bytes
fault_out e = (e.code, e.message)

-- withFeature
unfoldable pub with_feature : Server → List ℕ → Bytes → List ℕ
with_feature s clients feature = filter (λ c. has_feature s c feature) clients

module _ (env : Env) where
  -- Below the switch: the new revision, and the broadcast.
  unfoldable pub publish_action :
      Server → ℕ → ℕ → Option Action → RoomState → PlaybackActionPayload → Server
  publish_action s c r action state p =
      let room = s.room_at r in
      let out = outgoing_action action state p env.now_ms (s.client_at c).id in
      let published = set_room s r (record room {
        state = record state { revision = next_revision state };
        track_revision =
            if is_change_track action then next_revision state else room.track_revision;
      }) in
      send_message_to_clients env published
        (if is_update_track action
          then with_feature s (room_clients room) feature_update_track
          else room_clients room)
        (sync_playback out)

  unfoldable pub settle_action : Server → ℕ → ℕ → Option Action → Verdict → Server
  settle_action s c r action (applied state p) = publish_action s c r action state p
  settle_action s c r action (refused state e) =
      send_error env (set_room s r (record (s.room_at r) { state = state })) c e.code e.message
  settle_action s c r action silent = s

  abbrev host_only : Server → ℕ → Server
  host_only s c = send_error env s c (bytes "not_host") (bytes "Only the host can control playback")

  unfoldable pub run_action : Server → ℕ → ℕ → PlaybackActionPayload → Server
  run_action s c r p =
      settle_action s c r (action_of p.action)
        (apply_action (action_of p.action) (s.room_at r).state p env.now_ms (s.client_at c).rtt_ms)

  -- An action with a host_sequence must be newer than the last one.
  unfoldable pub sequence_action : Server → ℕ → ℕ → PlaybackActionPayload → Server
  sequence_action s c r p =
      let room = s.room_at r in
      if p.host_sequence == 0
      then run_action s c r p
      else if leb p.host_sequence room.last_host_sequence
      then send_error env s c (bytes "stale_action")
          (bytes "Playback action is older than one already applied")
      else run_action (set_room s r (record room { last_host_sequence = p.host_sequence })) c r p

  unfoldable pub handle_playback_action : Server → ℕ → Option PlaybackActionPayload → Server
  handle_playback_action s c payload = elim (s.client_at c).room [
    | none ↦ send_error env s c (bytes "not_in_room") (bytes "You are not in a room")
    | some r ↦ if not (controls_playback s c (s.room_at r)) then host_only s c else elim payload [
      | none ↦
          send_error env s c (bytes "invalid_payload") (bytes "Invalid playback action payload")
      | some p ↦
          if p.action == []
          then send_error env s c (bytes "missing_action") (bytes "Action is required")
          else sequence_action s c r
              (record p { queue_title = sanitize_string p.queue_title max_track_title_length })
    ]
  ]

  -- The two messages that steer a guest who has buffered, and the reply.
  unfoldable pub confirm_buffer : Server → ℕ → Room → TrackInfo → Server
  confirm_buffer s c room t =
      let order = record zero_playback {
        action = action_name seek;
        track_id = t.id;
        position = live_playback_position room.state env.now_ms;
        server_time = env.now_ms;
        revision = room.state.revision;
      } in
      let state_action = if room.state.is_playing then action_name play else action_name pause in
      let steered =
        if points_to room.host c
        then s
        else send_message env (send_message env s c (sync_playback order)) c
            (sync_playback (record order { action = state_action })) in
      reply env steered c (buffer_complete t.id)

  abbrev stale_buffer : Server → ℕ → Server
  stale_buffer s c =
      send_error env s c (bytes "stale_track") (bytes "Buffer readiness targets a stale track")

  unfoldable pub handle_buffer_ready : Server → ℕ → Option BufferReadyPayload → Server
  handle_buffer_ready s c payload = elim payload [
    | none ↦ send_error env s c (bytes "invalid_payload") (bytes "Invalid buffer ready payload")
    | some p ↦
        if p.track_id == []
        then send_error env s c (bytes "missing_track_id") (bytes "Track ID is required")
        else elim (s.client_at c).room [
          | none ↦ send_error env s c (bytes "not_in_room") (bytes "You are not in a room")
          | some r ↦
              let room = s.room_at r in
              if not (is_member s c room)
              then send_error env s c (bytes "not_in_room")
                  (bytes "You are not an active room member")
              else elim room.state.current_track [
                | none ↦ stale_buffer s c
                | some t ↦
                    if not (p.track_id == t.id)
                      || not (p.track_revision == 0)
                        && not (p.track_revision == room.track_revision)
                    then stale_buffer s c
                    else confirm_buffer s c room t
              ]
        ]
  ]

  unfoldable pub handle_request_sync : Server → ℕ → Server
  handle_request_sync s c = elim (s.client_at c).room [
    | none ↦ send_error env s c (bytes "not_in_room") (bytes "You are not in a room")
    | some r ↦
        let room = s.room_at r in
        let (allowed, outbox) = allow_sync_response env (s.outbox_at c) in
        if not (is_member s c room)
        then send_error env s c (bytes "not_in_room") (bytes "You are not an active room member")
        else if allowed
        then reply env (set_outbox s c outbox) c (sync_state (sync_snapshot room.state env.now_ms))
        else if has_feature s c feature_request_id
        then send_error env s c (bytes "sync_rate_limited") (bytes "Retry after 1000 ms")
        else s
  ]

  abbrev max_drift_sample_skew : ℤ
  max_drift_sample_skew = pos 10000

  -- The time at which a ping's position was sampled.
  unfoldable pub sampled_at : PingPayload → ℤ → ℤ
  sampled_at p received_at =
      if leb_ℤ p.position_captured_at_server_time (pos 0)
      then received_at
      else p.position_captured_at_server_time

  -- A sample counts if it is for the current track, after the last action, near the server's clock.
  unfoldable pub is_drift_valid : Room → ℕ → PingPayload → ℤ → Bool
  is_drift_valid room c p received_at =
      let age = wrap64 (received_at -ℤ sampled_at p received_at) in
      let on_track : Bool = elim room.state.current_track [
        | none ↦ false
        | some t ↦ p.track_id == t.id
      ] in
      p.has_position
      && not (points_to room.host c)
      && on_track
      && leb_ℤ room.state.last_update (sampled_at p received_at)
      && leb_ℤ (pos 0 -ℤ max_drift_sample_skew) age
      && leb_ℤ age max_drift_sample_skew

  unfoldable pub is_state_mismatch : Server → ℕ → Room → PingPayload → Bool
  is_state_mismatch s c room p =
      p.has_state_hash
      && not (is_rickroll (s.client_at c).ua_tier)
      && not (p.state_hash == room_state_hash room.state)

  abbrev plain_pong : PingPayload → ℤ → PongPayload
  plain_pong p received_at = record {
    client_time = p.client_time;
    server_receive_time = received_at;
    server_send_time = pos 0;
    sequence = p.sequence;
    drift_valid = false;
    drift_ms = pos 0;
    state_mismatch = false;
  }

  unfoldable pub room_pong : Server → ℕ → Room → PingPayload → ℤ → PongPayload
  room_pong s c room p received_at =
      let valid = is_drift_valid room c p received_at in
      record (plain_pong p received_at) {
        drift_valid = valid;
        drift_ms =
            if valid
            then wrap64 (p.position -ℤ live_playback_position room.state (sampled_at p received_at))
            else pos 0;
        state_mismatch = is_state_mismatch s c room p;
      }

  -- A mismatch also brings a snapshot, unless one was sent a moment ago.
  unfoldable pub answer_ping : Server → ℕ → Room → PingPayload → ℤ → Server
  answer_ping s c room p received_at =
      let (allowed, outbox) = allow_sync_response env (s.outbox_at c) in
      let ponged = room_pong s c room p received_at in
      if is_state_mismatch s c room p
      then if allowed
        then send_message env (queue_pong env (set_outbox s c outbox) c ponged) c
            (sync_state (sync_snapshot room.state env.now_ms))
        else queue_pong env s c ponged
      else queue_pong env s c ponged

  -- An empty payload is a ping of zeros, which the caller passes.
  unfoldable pub handle_ping : Server → ℕ → Option PingPayload → ℤ → Server
  handle_ping s c payload received_at = elim payload [
    | none ↦ send_error env s c (bytes "invalid_payload") (bytes "Invalid ping payload")
    | some p ↦ elim (s.client_at c).room [
      | none ↦ queue_pong env s c (plain_pong p received_at)
      | some r ↦
          if (p.has_position || p.has_state_hash) && is_member s c (s.room_at r)
          then answer_ping s c (s.room_at r) p received_at
          else queue_pong env s c (plain_pong p received_at)
    ]
  ]
