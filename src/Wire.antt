-- ===== src/Wire.antt =====
-- The library code that internal/server/codec.go calls, as parameters: protobuf, protowire and gzip. The code
-- generated from the protobuf schema is not in the repository; its structs stand here with the fields
-- that codec.go writes and reads.
use metroserver.Prelude.{
  ℕ, suc, ◌≤◌, ◌<◌, ◌≡◌, ◌≢◌, Bool, ◌&&◌, Option, some, List, [], length, take, drop, ℤ, Bytes,
  if◌then◌else◌, nat_eq, ◌==◌,
}
use metroserver.Float32.{Float32}

-- pb.Envelope
pub record Envelope : Type 0 where
  pub msg_type : Bytes
  pub payload : Bytes
  pub compressed : Bool
  pub request_id : ℕ

-- pb.TrackInfo
pub record PbTrackInfo : Type 0 where
  pub id : Bytes
  pub title : Bytes
  pub artist : Bytes
  pub album : Bytes
  pub duration : ℤ
  pub thumbnail : Bytes
  pub suggested_by : Bytes

-- pb.UserInfo
pub record PbUserInfo : Type 0 where
  pub user_id : Bytes
  pub username : Bytes
  pub is_host : Bool
  pub is_connected : Bool

-- pb.RoomState
pub record PbRoomState : Type 0 where
  pub room_code : Bytes
  pub host_id : Bytes
  pub users : List PbUserInfo
  pub current_track : Option PbTrackInfo
  pub is_playing : Bool
  pub position : ℤ
  pub last_update : ℤ
  pub volume : Float32
  pub queue : List PbTrackInfo
  pub revision : ℕ
  pub queue_title : Bytes

-- pb.PlaybackActionPayload
pub record PbPlaybackAction : Type 0 where
  pub action : Bytes
  pub track_id : Bytes
  pub position : ℤ
  pub track_info : Option PbTrackInfo
  pub insert_next : Bool
  pub queue : List PbTrackInfo
  pub queue_title : Bytes
  pub volume : Float32
  pub server_time : ℤ
  pub revision : ℕ
  pub captured_at_server_time : ℤ
  pub replace_queue : Bool
  pub origin_user_id : Bytes
  pub host_sequence : ℕ

-- pb.SyncStatePayload
pub record PbSyncState : Type 0 where
  pub current_track : Option PbTrackInfo
  pub is_playing : Bool
  pub position : ℤ
  pub last_update : ℤ
  pub volume : Float32
  pub queue : List PbTrackInfo
  pub revision : ℕ
  pub queue_title : Bytes

-- pb.PingPayload
pub record PbPing : Type 0 where
  pub client_time : ℤ
  pub sequence : ℕ
  pub has_position : Bool
  pub track_id : Bytes
  pub position : ℤ
  pub position_captured_at_server_time : ℤ
  pub has_state_hash : Bool
  pub state_hash : ℕ

-- pb.PongPayload
pub record PbPong : Type 0 where
  pub client_time : ℤ
  pub server_receive_time : ℤ
  pub server_send_time : ℤ
  pub sequence : ℕ
  pub drift_valid : Bool
  pub drift_ms : ℤ
  pub state_mismatch : Bool

-- The messages of clients that carry a payload.
pub data Kind : Type 0 where
  creating joining approving rejecting playing buffering pinging kicking transferring : Kind
  suggesting approving_suggestion rejecting_suggestion reconnecting announcing : Kind

-- The generated struct of each kind; the small ones as tuples of their fields in the order of the schema.
abbrev pub PbOf : Kind → Type 0
PbOf creating = Bytes
PbOf joining = Bytes × Bytes
PbOf approving = Bytes
PbOf rejecting = Bytes × Bytes
PbOf playing = PbPlaybackAction
PbOf buffering = Bytes × ℕ
PbOf pinging = PbPing
PbOf kicking = Bytes × Bytes
PbOf transferring = Bytes
PbOf suggesting = Option PbTrackInfo
PbOf approving_suggestion = Bytes
PbOf rejecting_suggestion = Bytes × Bytes
PbOf reconnecting = Bytes
PbOf announcing = Bool × Bool × Bytes × List Bytes

-- The generated structs that are marshalled; the fields in the order of the schema.
pub data PbMessage : Type 0 where
  pb_client : (k : Kind) → PbOf k → PbMessage
  pb_room_created : Bytes → Bytes → Bytes → PbMessage
  pb_join_request pb_user_joined pb_user_left : Bytes → Bytes → PbMessage
  pb_user_reconnected pb_user_disconnected : Bytes → Bytes → PbMessage
  pb_join_approved : Bytes → Bytes → Bytes → PbRoomState → PbMessage
  pb_join_rejected : Bytes → PbMessage
  pb_buffer_complete : Bytes → PbMessage
  pb_error : Bytes → Bytes → PbMessage
  pb_host_changed : Bytes → Bytes → PbMessage
  pb_kicked : Bytes → PbMessage
  pb_sync_state : PbSyncState → PbMessage
  pb_reconnected : Bytes → Bytes → PbRoomState → Bool → PbMessage
  pb_suggestion_received : Bytes → Bytes → Bytes → Option PbTrackInfo → PbMessage
  pb_suggestion_approved : Bytes → Option PbTrackInfo → PbMessage
  pb_suggestion_submitted : Bytes → Option PbTrackInfo → PbMessage
  pb_pong : PbPong → PbMessage
  pb_server_capabilities : Bool → Bool → Bytes → List Bytes → Bool → PbMessage
  pb_server_restarting : ℤ → Bytes → PbMessage

-- The library functions. none is an error (a negative length, for protowire).
pub record Library : Type 0 where
  -- proto.Marshal and proto.Unmarshal
  pub marshal_envelope : Envelope → Option Bytes
  pub unmarshal_envelope : Bytes → Option Envelope
  pub marshal : PbMessage → Option Bytes
  pub unmarshal : (k : Kind) → Bytes → Option (PbOf k)
  -- protowire.ConsumeTag: the field's number, its wire type and the length of the tag.
  pub consume_tag : Bytes → Option (ℕ × ℕ × ℕ)
  -- protowire.ConsumeFieldValue, for a number and a wire type.
  pub consume_field_value : ℕ → ℕ → Bytes → Option ℕ
  -- gzip.NewWriter, Write and Close
  pub compress : Bytes → Option Bytes
  -- gzip.NewReader, read through an io.LimitReader of so many bytes.
  pub gunzip : ℕ → Bytes → Option Bytes

-- A field of the queue has number 6 and wire type 2 (protowire.BytesType).
abbrev pub is_queue_field : ℕ → ℕ → Bool
is_queue_field number wire_type = number == 6 && wire_type == 2

-- The data is a sequence of fields, so many of which are queue entries.
pub data Fields (lib : Library) : Bytes → ℕ → Type 0 where
  no_field : Fields lib [] 0
  one_field :
      (wire : Bytes) (number wire_type tag_length field_length entries : ℕ)
      → lib.consume_tag wire ≡ some (number, wire_type, tag_length)
      → lib.consume_field_value number wire_type (drop tag_length wire) ≡ some field_length
      → Fields lib (drop field_length (drop tag_length wire)) entries
      → Fields lib wire (if is_queue_field number wire_type then suc entries else entries)

-- What the documentation of the libraries promises.
pub record IsDocumented (lib : Library) : Type 0 where
  -- What is marshalled is read back.
  pub envelope_law :
      (e : Envelope) (wire : Bytes)
      → lib.marshal_envelope e ≡ some wire
      → lib.unmarshal_envelope wire ≡ some e
  pub payload_law :
      (k : Kind) (m : PbOf k) (wire : Bytes)
      → lib.marshal (pb_client k m) ≡ some wire
      → lib.unmarshal k wire ≡ some m
  -- An envelope with a type is not empty on the wire.
  pub typed_law :
      (e : Envelope) (wire : Bytes)
      → lib.marshal_envelope e ≡ some wire
      → e.msg_type ≢ []
      → wire ≢ []
  -- Each entry of a repeated field is marshalled as a field of its own.
  pub entries_law :
      (m : PbPlaybackAction) (wire : Bytes)
      → lib.marshal (pb_client playing m) ≡ some wire
      → Fields lib wire (length m.queue)
  -- A tag is consumed from the data, and has a byte at least.
  pub tag_law :
      (wire : Bytes) (number wire_type n : ℕ)
      → lib.consume_tag wire ≡ some (number, wire_type, n)
      → (0 < n) × (n ≤ length wire)
  pub compress_law :
      (wire zipped : Bytes) (n : ℕ)
      → lib.compress wire ≡ some zipped
      → lib.gunzip n zipped ≡ some (take n wire)
