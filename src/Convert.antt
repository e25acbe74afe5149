-- ===== src/Convert.antt =====
-- fromProtoMessage and decodePayload of internal/server/codec.go: what becomes of the bytes of a client's payload.
pub mod RoundTrip
use metroserver.Prelude.{
  Bool, true, not, ◌&&◌, ◌||◌, Option, none, some, List, [], ◌∷◌, map, length, ltb, leb, Bytes,
  if◌then◌else◌, nat_eq, bytes_eq_instance,
}
use metroserver.Limits.{max_queue_input_size, max_client_features, max_feature_name_length}
use metroserver.Protocol.{TrackInfo, PlaybackActionPayload, PingPayload}
use metroserver.Wire.{
  Library, Kind, creating, joining, approving, rejecting, playing, buffering, pinging, kicking,
  transferring, suggesting, approving_suggestion, rejecting_suggestion, reconnecting, announcing,
  PbOf, PbTrackInfo, PbPlaybackAction, PbPing,
}
use metroserver.Cardinality.{validate_playback_action_cardinality}
use metroserver.ToProto.{map_track, PayloadOf}

unfoldable pub proto_to_track_info : PbTrackInfo → TrackInfo
proto_to_track_info p = record {
  id = p.id;
  title = p.title;
  artist = p.artist;
  album = p.album;
  duration = p.duration;
  thumbnail = p.thumbnail;
  suggested_by = p.suggested_by;
}

-- The origin is not read from a client.
unfoldable pub proto_to_playback : PbPlaybackAction → PlaybackActionPayload
proto_to_playback p = record {
  action = p.action;
  track_id = p.track_id;
  position = p.position;
  track_info = map_track proto_to_track_info p.track_info;
  insert_next = p.insert_next;
  queue = map proto_to_track_info p.queue;
  queue_title = p.queue_title;
  volume = p.volume;
  server_time = p.server_time;
  revision = p.revision;
  captured_at_server_time = p.captured_at_server_time;
  replace_queue = p.replace_queue;
  origin_user_id = [];
  host_sequence = p.host_sequence;
}

unfoldable pub proto_to_ping : PbPing → PingPayload
proto_to_ping p = record {
  client_time = p.client_time;
  sequence = p.sequence;
  has_position = p.has_position;
  track_id = p.track_id;
  position = p.position;
  position_captured_at_server_time = p.position_captured_at_server_time;
  has_state_hash = p.has_state_hash;
  state_hash = p.state_hash;
}

-- The loop over the names of the features.
abbrev pub are_short : List Bytes → Bool
are_short [] = true
are_short (name ∷ rest) = leb (length name) max_feature_name_length && are_short rest

-- The conversion of each case of fromProtoMessage; none is an error.
unfoldable pub convert : (k : Kind) → PbOf k → Option (PayloadOf k)
unfolding proto_to_playback proto_to_ping proto_to_track_info
convert creating username = some (record { username = username })
convert joining (code, username) = some (record { room_code = code; username = username })
convert approving user = some (record { user_id = user })
convert rejecting (user, reason) = some (record { user_id = user; reason = reason })
convert playing p =
    if ltb max_queue_input_size (length p.queue) then none else some (proto_to_playback p)
convert buffering (track, revision) = some (record { track_id = track; track_revision = revision })
convert pinging p = some (proto_to_ping p)
convert kicking (user, reason) = some (record { user_id = user; reason = reason })
convert transferring user = some (record { new_host_id = user })
convert suggesting track = some (record { track_info = map_track proto_to_track_info track })
convert approving_suggestion id = some (record { suggestion_id = id })
convert rejecting_suggestion (id, reason) = some (record { suggestion_id = id; reason = reason })
convert reconnecting token = some (record { session_token = token })
convert announcing (protobuf, compression, version, features) =
    if ltb max_client_features (length features) || not (are_short features)
    then none
    else some (record {
      supports_protobuf = protobuf;
      supports_compression = compression;
      client_version = version;
      features = features;
    })

module _ (lib : Library) where
  -- Only a playback action is checked on the wire.
  unfoldable pub passes_cardinality : Kind → Bytes → Bool
  unfolding validate_playback_action_cardinality
  passes_cardinality playing wire = validate_playback_action_cardinality lib wire
  passes_cardinality _ wire = true

  -- fromProtoMessage for the type of each kind. Its result has the type of the target, so that the type
  -- switch of decodePayload copies it.
  unfoldable pub decode_payload : (k : Kind) → Bytes → Option (PayloadOf k)
  unfolding passes_cardinality convert
  decode_payload k wire =
      if passes_cardinality k wire
      then elim (lib.unmarshal k wire) [ none ↦ none | some m ↦ convert k m ]
      else none
