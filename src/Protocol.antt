-- ===== src/Protocol.antt =====
-- internal/server/protocol.go: the payloads that clients and server exchange. A Go pointer to a track
-- is an option. A slice is a list: in the payloads that the server handles a slice is nil exactly if
-- it is empty.
use metroserver.Prelude.{
  ℕ, Bool, false, Option, none, some, List, [], ◌∷◌, if◌then◌else◌, ℤ, pos, Bytes, bytes, nat_eq,
  bytes_eq_instance, ◌==◌,
}

-- A float64: NaN, an infinity, or (-1)^negative * mantissa * 2^(exponent - 1074).
pub data Float64 : Type 0 where
  nan : Float64
  inf : Bool → Float64
  finite : Bool → ℕ → ℕ → Float64

abbrev pub float_one : Float64
float_one = finite false 1 1074

-- TrackInfo
pub record TrackInfo : Type 0 where
  pub id : Bytes
  pub title : Bytes
  pub artist : Bytes
  pub album : Bytes
  pub duration : ℤ
  pub thumbnail : Bytes
  pub suggested_by : Bytes

-- UserInfo
pub record UserInfo : Type 0 where
  pub user_id : Bytes
  pub username : Bytes
  pub is_host : Bool
  pub is_connected : Bool

-- RoomState
pub record RoomState : Type 0 where
  pub room_code : Bytes
  pub host_id : Bytes
  pub users : List UserInfo
  pub current_track : Option TrackInfo
  pub is_playing : Bool
  pub position : ℤ
  pub last_update : ℤ
  pub volume : Float64
  pub queue : List TrackInfo
  pub revision : ℕ
  pub queue_title : Bytes

-- PlaybackActionPayload
pub record PlaybackActionPayload : Type 0 where
  pub action : Bytes
  pub track_id : Bytes
  pub position : ℤ
  pub track_info : Option TrackInfo
  pub insert_next : Bool
  pub queue : List TrackInfo
  pub queue_title : Bytes
  pub volume : Float64
  pub server_time : ℤ
  pub revision : ℕ
  pub captured_at_server_time : ℤ
  pub replace_queue : Bool
  pub origin_user_id : Bytes
  pub host_sequence : ℕ

-- A PlaybackActionPayload literal that names no field.
abbrev pub zero_playback : PlaybackActionPayload
zero_playback = record {
  action = [];
  track_id = [];
  position = pos 0;
  track_info = none;
  insert_next = false;
  queue = [];
  queue_title = [];
  volume = finite false 0 0;
  server_time = pos 0;
  revision = 0;
  captured_at_server_time = pos 0;
  replace_queue = false;
  origin_user_id = [];
  host_sequence = 0;
}

-- SyncStatePayload
pub record SyncStatePayload : Type 0 where
  pub current_track : Option TrackInfo
  pub is_playing : Bool
  pub position : ℤ
  pub last_update : ℤ
  pub volume : Float64
  pub queue : List TrackInfo
  pub revision : ℕ
  pub queue_title : Bytes

-- BufferReadyPayload
pub record BufferReadyPayload : Type 0 where
  pub track_id : Bytes
  pub track_revision : ℕ

-- PingPayload
pub record PingPayload : Type 0 where
  pub client_time : ℤ
  pub sequence : ℕ
  pub has_position : Bool
  pub track_id : Bytes
  pub position : ℤ
  pub position_captured_at_server_time : ℤ
  pub has_state_hash : Bool
  pub state_hash : ℕ

-- PongPayload
pub record PongPayload : Type 0 where
  pub client_time : ℤ
  pub server_receive_time : ℤ
  pub server_send_time : ℤ
  pub sequence : ℕ
  pub drift_valid : Bool
  pub drift_ms : ℤ
  pub state_mismatch : Bool

-- CreateRoomPayload
pub record CreateRoomPayload : Type 0 where
  pub username : Bytes

-- JoinRoomPayload
pub record JoinRoomPayload : Type 0 where
  pub room_code : Bytes
  pub username : Bytes

-- ApproveJoinPayload
pub record ApproveJoinPayload : Type 0 where
  pub user_id : Bytes

-- RejectJoinPayload and KickUserPayload
pub record UserReasonPayload : Type 0 where
  pub user_id : Bytes
  pub reason : Bytes

-- TransferHostPayload
pub record TransferHostPayload : Type 0 where
  pub new_host_id : Bytes

-- SuggestTrackPayload
pub record SuggestTrackPayload : Type 0 where
  pub track_info : Option TrackInfo

-- ApproveSuggestionPayload
pub record ApproveSuggestionPayload : Type 0 where
  pub suggestion_id : Bytes

-- RejectSuggestionPayload
pub record RejectSuggestionPayload : Type 0 where
  pub suggestion_id : Bytes
  pub reason : Bytes

-- ReconnectPayload
pub record ReconnectPayload : Type 0 where
  pub session_token : Bytes

-- ClientCapabilitiesPayload
pub record ClientCapabilitiesPayload : Type 0 where
  pub supports_protobuf : Bool
  pub supports_compression : Bool
  pub client_version : Bytes
  pub features : List Bytes

-- ErrorPayload
pub record ErrorPayload : Type 0 where
  pub code : Bytes
  pub message : Bytes

-- RoomCreatedPayload
pub record RoomCreatedPayload : Type 0 where
  pub room_code : Bytes
  pub user_id : Bytes
  pub session_token : Bytes

-- JoinRequestPayload, UserJoinedPayload, UserLeftPayload, UserReconnectedPayload and
-- UserDisconnectedPayload
pub record UserPayload : Type 0 where
  pub user_id : Bytes
  pub username : Bytes

-- JoinApprovedPayload
pub record JoinApprovedPayload : Type 0 where
  pub room_code : Bytes
  pub user_id : Bytes
  pub session_token : Bytes
  pub state : RoomState

-- ReconnectedPayload
pub record ReconnectedPayload : Type 0 where
  pub room_code : Bytes
  pub user_id : Bytes
  pub state : RoomState
  pub is_host : Bool

-- HostChangedPayload
pub record HostChangedPayload : Type 0 where
  pub new_host_id : Bytes
  pub new_host_name : Bytes

-- SuggestionReceivedPayload
pub record SuggestionReceivedPayload : Type 0 where
  pub suggestion_id : Bytes
  pub from_user_id : Bytes
  pub from_username : Bytes
  pub track_info : Option TrackInfo

-- SuggestionApprovedPayload and SuggestionSubmittedPayload
pub record SuggestionTrackPayload : Type 0 where
  pub suggestion_id : Bytes
  pub track_info : Option TrackInfo

-- ServerCapabilitiesPayload
pub record ServerCapabilitiesPayload : Type 0 where
  pub supports_protobuf : Bool
  pub supports_compression : Bool
  pub server_version : Bytes
  pub features : List Bytes
  pub can_host : Bool

-- ServerRestartingPayload
pub record ServerRestartingPayload : Type 0 where
  pub eta_ms : ℤ
  pub reason : Bytes

-- A message from the server: its type and its payload.
pub data Message : Type 0 where
  room_created : RoomCreatedPayload → Message
  join_request : UserPayload → Message
  join_approved : JoinApprovedPayload → Message
  join_rejected : Bytes → Message
  user_joined : UserPayload → Message
  user_left : UserPayload → Message
  sync_playback : PlaybackActionPayload → Message
  buffer_complete : Bytes → Message
  error : ErrorPayload → Message
  pong : PongPayload → Message
  host_changed : HostChangedPayload → Message
  kicked : Bytes → Message
  sync_state : SyncStatePayload → Message
  reconnected : ReconnectedPayload → Message
  user_reconnected : UserPayload → Message
  user_disconnected : UserPayload → Message
  suggestion_received : SuggestionReceivedPayload → Message
  suggestion_approved : SuggestionTrackPayload → Message
  suggestion_rejected : RejectSuggestionPayload → Message
  server_capabilities : ServerCapabilitiesPayload → Message
  ack : Message
  server_restarting : ServerRestartingPayload → Message
  suggestion_submitted : SuggestionTrackPayload → Message

-- The playback actions.
pub data Action : Type 0 where
  play pause seek skip_next skip_prev change_track queue_add queue_remove queue_clear : Action
  sync_queue set_volume update_track : Action

unfoldable pub action_name : Action → Bytes
unfolding bytes
action_name play = bytes "play"
action_name pause = bytes "pause"
action_name seek = bytes "seek"
action_name skip_next = bytes "skip_next"
action_name skip_prev = bytes "skip_prev"
action_name change_track = bytes "change_track"
action_name queue_add = bytes "queue_add"
action_name queue_remove = bytes "queue_remove"
action_name queue_clear = bytes "queue_clear"
action_name sync_queue = bytes "sync_queue"
action_name set_volume = bytes "set_volume"
action_name update_track = bytes "update_track"

abbrev actions : List Action
actions =
    play ∷ pause ∷ seek ∷ change_track ∷ skip_next ∷ skip_prev ∷ queue_add ∷ queue_remove
    ∷ queue_clear ∷ sync_queue ∷ update_track ∷ set_volume ∷ []

find_action : List Action → Bytes → Option Action
find_action [] name = none
find_action (a ∷ rest) name = if action_name a == name then some a else find_action rest name

-- The case of a switch over action names that a name selects; none is the default case.
unfoldable pub action_of : Bytes → Option Action
unfolding find_action
action_of name = find_action actions name

-- The optional protocol features.
abbrev pub feature_request_id : Bytes
feature_request_id = bytes "request_id"

abbrev pub feature_server_restarting : Bytes
feature_server_restarting = bytes "server_restarting"

abbrev pub feature_suggestion_ack : Bytes
feature_suggestion_ack = bytes "suggestion_ack"

abbrev pub feature_update_track : Bytes
feature_update_track = bytes "update_track"

abbrev pub server_features : List Bytes
server_features =
    feature_request_id
    ∷ bytes "origin_tag"
    ∷ bytes "drift_report"
    ∷ bytes "desync_canary"
    ∷ feature_server_restarting
    ∷ feature_suggestion_ack
    ∷ bytes "replace_queue"
    ∷ bytes "host_sequence"
    ∷ bytes "track_revision"
    ∷ feature_update_track
    ∷ []
