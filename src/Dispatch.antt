-- ===== src/Dispatch.antt =====
-- handleMessage of internal/server/server.go, and the events that drive the server: a connection, a
-- message, the end of a connection, the periodic work, and
-- the end of the server. What the codec returns for a message is the request.
pub mod Operations
pub mod Closure
pub mod Membership
pub mod Rooming
pub mod Deciding
pub mod Leaving
pub mod Returning
pub mod Playing
pub mod Suggesting
pub mod Steps
pub mod Tables
pub mod Limits
pub mod HostFlags
pub mod Flood
use metroserver.Prelude.{
  ℕ, ◌+◌, true, false, not, ◌&&◌, Option, none, some, List, [], ◌∷◌, ◌++◌, if◌then◌else◌, ℤ, Bytes,
  bytes, nat_eq, bytes_eq_instance, ◌==◌,
}
use metroserver.Protocol.{
  PlaybackActionPayload, CreateRoomPayload, JoinRoomPayload, ApproveJoinPayload, UserReasonPayload,
  TransferHostPayload, SuggestTrackPayload, ApproveSuggestionPayload, RejectSuggestionPayload,
  ReconnectPayload, Message, feature_request_id, BufferReadyPayload,
}
use metroserver.Policy.{UaTier}
use metroserver.World.{
  Env, Server, Client, set_outbox, set_rates, has_name, has_feature, can_host_client, apply_client,
  reply, send_error,
}
use metroserver.Protocol.{
  PingPayload, ClientCapabilitiesPayload, server_capabilities, server_features, ack,
}
use metroserver.Policy.{UaPolicy}
use metroserver.Connections.{connect, release_source, allow_message, should_notify_rate_limit}
use metroserver.Lifecycle.{remove_client, cleanup_expired_sessions_once, cleanup_empty_rooms_once}
use metroserver.Shutdown.{announce_restart, drain_clients}
use metroserver.Hosts.{failover_hosts_once}
use metroserver.Reconnect.{handle_reconnect}
use metroserver.Rooms.{handle_create_room, handle_join_room}
use metroserver.Members.{
  handle_approve_join, handle_reject_join, handle_kick_user, handle_transfer_host, leave_room,
}
use metroserver.Suggestions.{
  handle_suggest_track, handle_approve_suggestion, handle_reject_suggestion,
}
use metroserver.Sync.{handle_playback_action, handle_buffer_ready, handle_request_sync, handle_ping}

-- A decoded request; a payload that does not decode is none.
pub data Request : Type 0 where
  create_room : Option CreateRoomPayload → Request
  join_room : Option JoinRoomPayload → Request
  leave : Request
  approve_join : Option ApproveJoinPayload → Request
  reject_join : Option UserReasonPayload → Request
  playback_action : Option PlaybackActionPayload → Request
  buffer_ready : Option BufferReadyPayload → Request
  kick_user : Option UserReasonPayload → Request
  transfer_host : Option TransferHostPayload → Request
  ping : Option PingPayload → ℤ → Request
  request_sync : Request
  reconnect : Option ReconnectPayload → Request
  suggest_track : Option SuggestTrackPayload → Request
  approve_suggestion : Option ApproveSuggestionPayload → Request
  reject_suggestion : Option RejectSuggestionPayload → Request
  client_capabilities : Option ClientCapabilitiesPayload → Request
  unknown : Bytes → Request
  too_large untyped malformed : Request

-- The loop of setFeatures over the names: those that the server supports, each once, in the order of
-- the client.
unfoldable pub accept_features : List Bytes → List Bytes → List Bytes
accept_features accepted [] = accepted
accept_features accepted (name ∷ rest) =
    accept_features
      (if has_name server_features name && not (has_name accepted name)
        then accepted ++ name ∷ []
        else accepted)
      rest

module _ (env : Env) where
  -- handleClientCapabilities
  unfoldable pub handle_client_capabilities : Server → ℕ → Option ClientCapabilitiesPayload → Server
  handle_client_capabilities s c payload = elim payload [
    | none ↦
        send_error env s c (bytes "invalid_payload") (bytes "Invalid client capabilities payload")
    | some p ↦
        let features = accept_features [] p.features in
        if not p.supports_protobuf
        then send_error env s c (bytes "unsupported_client") (bytes "Protobuf support is required")
        else if (s.client_at c).affiliation_started
        then send_error env s c (bytes "capabilities_too_late")
            (bytes "Client capabilities must be sent before joining a room")
        else if (s.client_at c).capabilities_set
        then send_error env s c (bytes "capabilities_already_set")
            (bytes "Client capabilities have already been configured")
        else reply env
            (apply_client s c (λ v. record v {
              capabilities_set = true;
              compression = p.supports_compression;
              features = features;
            }))
            c
            (server_capabilities (record {
              supports_protobuf = true;
              supports_compression = true;
              server_version = bytes "2";
              features = features;
              can_host = can_host_client s c;
            }))
  ]

  -- The switch of handleMessage.
  unfoldable pub dispatch : Server → ℕ → Request → Server
  dispatch s c (create_room p) = handle_create_room env s c p
  dispatch s c (join_room p) = handle_join_room env s c p
  dispatch s c leave = leave_room env s c
  dispatch s c (approve_join p) = handle_approve_join env s c p
  dispatch s c (reject_join p) = handle_reject_join env s c p
  dispatch s c (playback_action p) = handle_playback_action env s c p
  dispatch s c (buffer_ready p) = handle_buffer_ready env s c p
  dispatch s c (kick_user p) = handle_kick_user env s c p
  dispatch s c (transfer_host p) = handle_transfer_host env s c p
  dispatch s c (ping p received_at) = handle_ping env s c p received_at
  dispatch s c request_sync = handle_request_sync env s c
  dispatch s c (reconnect p) = handle_reconnect env s c p
  dispatch s c (suggest_track p) = handle_suggest_track env s c p
  dispatch s c (approve_suggestion p) = handle_approve_suggestion env s c p
  dispatch s c (reject_suggestion p) = handle_reject_suggestion env s c p
  dispatch s c (client_capabilities p) = handle_client_capabilities s c p
  dispatch s c (unknown name) =
      send_error env s c (bytes "unknown_message_type") (bytes "Unknown message type: " ++ name)
  dispatch s c too_large =
      send_error env s c (bytes "message_too_large")
        (bytes "Message exceeds 2097152 bytes after decompression")
  dispatch s c untyped =
      send_error env s c (bytes "invalid_message") (bytes "Message type is required")
  dispatch s c malformed =
      send_error env s c (bytes "invalid_message") (bytes "Invalid message format")

  abbrev begin_request : Server → ℕ → ℕ → Server
  begin_request s c request_id =
      set_outbox s c (record (s.outbox_at c) { request_id = request_id; replied = false })

  abbrev end_request : Server → ℕ → Server
  end_request s c = set_outbox s c (record (s.outbox_at c) { request_id = 0 })

  -- A command that had no answer is acknowledged, for the clients that asked for it.
  unfoldable pub acknowledge : Server → ℕ → ℕ → Server
  acknowledge s c request_id =
      if not (request_id == 0) && not (s.outbox_at c).replied && has_feature s c feature_request_id
      then reply env s c ack
      else s

  unfoldable pub handle_message : Server → ℕ → ℕ → Request → Server
  handle_message s c request_id request =
      end_request (acknowledge (dispatch (begin_request s c request_id) c request) c request_id) c

  -- A message that the socket has delivered, in the loop of readPump: over the limit it is not read, and
  -- the first such message of a window is answered.
  unfoldable pub read_message : Server → ℕ → ℕ → Request → Server
  unfolding handle_message
  read_message s c request_id request =
      let (allowed, window) = allow_message (s.rates_at c) env.now in
      let (notifies, told) = should_notify_rate_limit window in
      if allowed
      then handle_message (set_rates s c window) c request_id request
      else if notifies
      then send_error env (set_rates s c told) c (bytes "rate_limited") (bytes "Too many messages")
      else set_rates s c told

-- What happens to the server.
pub data Event : Type 0 where
  connection : ℕ → UaTier → Option UaPolicy → Bytes → Event
  message : ℕ → ℕ → Request → Event
  disconnect : ℕ → Event
  sessions_tick rooms_tick failover_tick : Event
  restart_signal drain_signal : Event

unfoldable pub step : Server → Env × Event → Server
step s (env, connection c tier policy source) = connect env s c tier policy source
step s (env, message c request_id request) = read_message env s c request_id request
step s (env, disconnect c) =
    let gone = remove_client env s c in
    record gone { sources = release_source gone.sources (gone.client_at c).source }
step s (env, sessions_tick) = cleanup_expired_sessions_once env s
step s (env, rooms_tick) = cleanup_empty_rooms_once env s
step s (env, failover_tick) = failover_hosts_once env s
step s (env, restart_signal) = announce_restart env s
step s (env, drain_signal) = drain_clients s

unfoldable pub run : Server → List (Env × Event) → Server
run s [] = s
run s (e ∷ rest) = run (step s e) rest
