-- ===== src/ToProto.antt =====
-- internal/server/codec.go: what toProtoMessage makes of the Go payloads, of clients and of the server.
use metroserver.Prelude.{Option, none, some, map, nat_eq, bytes_eq_instance}
use metroserver.Float32.{float32}
use metroserver.Protocol.{
  TrackInfo, UserInfo, RoomState, PlaybackActionPayload, SyncStatePayload, BufferReadyPayload,
  PingPayload, PongPayload, CreateRoomPayload, JoinRoomPayload, ApproveJoinPayload,
  UserReasonPayload, TransferHostPayload, SuggestTrackPayload, ApproveSuggestionPayload,
  RejectSuggestionPayload, ReconnectPayload, ClientCapabilitiesPayload, Message, room_created,
  join_request, join_approved, join_rejected, user_joined, user_left, sync_playback,
  buffer_complete, error, pong, host_changed, kicked, sync_state, reconnected, user_reconnected,
  user_disconnected, suggestion_received, suggestion_approved, suggestion_rejected,
  server_capabilities, ack, server_restarting, suggestion_submitted,
}
use metroserver.Wire.{
  Kind, creating, joining, approving, rejecting, playing, buffering, pinging, kicking, transferring,
  suggesting, approving_suggestion, rejecting_suggestion, reconnecting, announcing, PbOf, PbMessage,
  pb_client, pb_room_created, pb_join_request, pb_user_joined, pb_user_left, pb_user_reconnected,
  pb_user_disconnected, pb_join_approved, pb_join_rejected, pb_buffer_complete, pb_error,
  pb_host_changed, pb_kicked, pb_sync_state, pb_reconnected, pb_suggestion_received,
  pb_suggestion_approved, pb_suggestion_submitted, pb_pong, pb_server_capabilities,
  pb_server_restarting, PbTrackInfo, PbUserInfo, PbRoomState, PbPlaybackAction, PbSyncState, PbPing,
  PbPong,
}

unfoldable pub track_info_to_proto : TrackInfo → PbTrackInfo
track_info_to_proto t = record {
  id = t.id;
  title = t.title;
  artist = t.artist;
  album = t.album;
  duration = t.duration;
  thumbnail = t.thumbnail;
  suggested_by = t.suggested_by;
}

unfoldable pub user_info_to_proto : UserInfo → PbUserInfo
user_info_to_proto u = record {
  user_id = u.user_id;
  username = u.username;
  is_host = u.is_host;
  is_connected = u.is_connected;
}

-- A nil track stays nil.
abbrev pub map_track {ℓ κ} : {A : Type ℓ} {B : Type κ} → (A → B) → Option A → Option B
map_track f none = none
map_track f (some t) = some (f t)

unfoldable pub room_state_to_proto : RoomState → PbRoomState
unfolding track_info_to_proto user_info_to_proto
room_state_to_proto r = record {
  room_code = r.room_code;
  host_id = r.host_id;
  users = map user_info_to_proto r.users;
  current_track = map_track track_info_to_proto r.current_track;
  is_playing = r.is_playing;
  position = r.position;
  last_update = r.last_update;
  volume = float32 r.volume;
  queue = map track_info_to_proto r.queue;
  revision = r.revision;
  queue_title = r.queue_title;
}

unfoldable pub playback_to_proto : PlaybackActionPayload → PbPlaybackAction
playback_to_proto p = record {
  action = p.action;
  track_id = p.track_id;
  position = p.position;
  track_info = map_track track_info_to_proto p.track_info;
  insert_next = p.insert_next;
  queue = map track_info_to_proto p.queue;
  queue_title = p.queue_title;
  volume = float32 p.volume;
  server_time = p.server_time;
  revision = p.revision;
  captured_at_server_time = p.captured_at_server_time;
  replace_queue = p.replace_queue;
  origin_user_id = p.origin_user_id;
  host_sequence = p.host_sequence;
}

unfoldable pub sync_state_to_proto : SyncStatePayload → PbSyncState
sync_state_to_proto p = record {
  current_track = map_track track_info_to_proto p.current_track;
  is_playing = p.is_playing;
  position = p.position;
  last_update = p.last_update;
  volume = float32 p.volume;
  queue = map track_info_to_proto p.queue;
  revision = p.revision;
  queue_title = p.queue_title;
}

unfoldable pub ping_to_proto : PingPayload → PbPing
ping_to_proto p = record {
  client_time = p.client_time;
  sequence = p.sequence;
  has_position = p.has_position;
  track_id = p.track_id;
  position = p.position;
  position_captured_at_server_time = p.position_captured_at_server_time;
  has_state_hash = p.has_state_hash;
  state_hash = p.state_hash;
}

unfoldable pub pong_to_proto : PongPayload → PbPong
pong_to_proto p = record {
  client_time = p.client_time;
  server_receive_time = p.server_receive_time;
  server_send_time = p.server_send_time;
  sequence = p.sequence;
  drift_valid = p.drift_valid;
  drift_ms = p.drift_ms;
  state_mismatch = p.state_mismatch;
}

-- The Go struct of each kind of message.
abbrev pub PayloadOf : Kind → Type 0
PayloadOf creating = CreateRoomPayload
PayloadOf joining = JoinRoomPayload
PayloadOf approving = ApproveJoinPayload
PayloadOf rejecting = UserReasonPayload
PayloadOf playing = PlaybackActionPayload
PayloadOf buffering = BufferReadyPayload
PayloadOf pinging = PingPayload
PayloadOf kicking = UserReasonPayload
PayloadOf transferring = TransferHostPayload
PayloadOf suggesting = SuggestTrackPayload
PayloadOf approving_suggestion = ApproveSuggestionPayload
PayloadOf rejecting_suggestion = RejectSuggestionPayload
PayloadOf reconnecting = ReconnectPayload
PayloadOf announcing = ClientCapabilitiesPayload

-- What toProtoMessage makes of the payload of a client's message.
unfoldable pub client_to_proto : (k : Kind) → PayloadOf k → PbOf k
unfolding playback_to_proto ping_to_proto
client_to_proto creating p = p.username
client_to_proto joining p = (p.room_code, p.username)
client_to_proto approving p = p.user_id
client_to_proto rejecting p = (p.user_id, p.reason)
client_to_proto playing p = playback_to_proto p
client_to_proto buffering p = (p.track_id, p.track_revision)
client_to_proto pinging p = ping_to_proto p
client_to_proto kicking p = (p.user_id, p.reason)
client_to_proto transferring p = p.new_host_id
client_to_proto suggesting p = map_track track_info_to_proto p.track_info
client_to_proto approving_suggestion p = p.suggestion_id
client_to_proto rejecting_suggestion p = (p.suggestion_id, p.reason)
client_to_proto reconnecting p = p.session_token
client_to_proto announcing p =
    (p.supports_protobuf, p.supports_compression, p.client_version, p.features)

-- A payload that is sent: of a client, or of the server.
pub data Payload : Type 0 where
  from_client : (k : Kind) → PayloadOf k → Payload
  from_server : Message → Payload

unfoldable pub server_to_proto : Message → Option PbMessage
unfolding room_state_to_proto sync_state_to_proto pong_to_proto
server_to_proto (room_created p) = some (pb_room_created p.room_code p.user_id p.session_token)
server_to_proto (join_request p) = some (pb_join_request p.user_id p.username)
server_to_proto (join_approved p) =
    some (pb_join_approved p.room_code p.user_id p.session_token (room_state_to_proto p.state))
server_to_proto (join_rejected reason) = some (pb_join_rejected reason)
server_to_proto (user_joined p) = some (pb_user_joined p.user_id p.username)
server_to_proto (user_left p) = some (pb_user_left p.user_id p.username)
server_to_proto (sync_playback p) = some (pb_client playing (client_to_proto playing p))
server_to_proto (buffer_complete track_id) = some (pb_buffer_complete track_id)
server_to_proto (error p) = some (pb_error p.code p.message)
server_to_proto (pong p) = some (pb_pong (pong_to_proto p))
server_to_proto (host_changed p) = some (pb_host_changed p.new_host_id p.new_host_name)
server_to_proto (kicked reason) = some (pb_kicked reason)
server_to_proto (sync_state p) = some (pb_sync_state (sync_state_to_proto p))
server_to_proto (reconnected p) =
    some (pb_reconnected p.room_code p.user_id (room_state_to_proto p.state) p.is_host)
server_to_proto (user_reconnected p) = some (pb_user_reconnected p.user_id p.username)
server_to_proto (user_disconnected p) = some (pb_user_disconnected p.user_id p.username)
server_to_proto (suggestion_received p) = some (
    pb_suggestion_received p.suggestion_id p.from_user_id p.from_username
      (map_track track_info_to_proto p.track_info))
server_to_proto (suggestion_approved p) =
    some (pb_suggestion_approved p.suggestion_id (map_track track_info_to_proto p.track_info))
server_to_proto (suggestion_rejected p) =
    some (pb_client rejecting_suggestion (client_to_proto rejecting_suggestion p))
server_to_proto (server_capabilities p) = some (
    pb_server_capabilities p.supports_protobuf p.supports_compression p.server_version p.features
      p.can_host)
server_to_proto ack = none
server_to_proto (server_restarting p) = some (pb_server_restarting p.eta_ms p.reason)
server_to_proto (suggestion_submitted p) =
    some (pb_suggestion_submitted p.suggestion_id (map_track track_info_to_proto p.track_info))

-- none is the nil payload of an acknowledgement, which is not converted.
unfoldable pub to_proto_message : Payload → Option PbMessage
unfolding server_to_proto client_to_proto
to_proto_message (from_client k p) = some (pb_client k (client_to_proto k p))
to_proto_message (from_server m) = server_to_proto m
