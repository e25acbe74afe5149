-- ===== src/Tests/Messages.antt =====
-- A small wire format in place of the libraries that internal/server/codec.go calls, and the codec's theorems on it.
use metroserver.Prelude.{
  map, ℕ, ◌≤◌, ◌<◌, ◌≡◌, refl, sym, ap, subst, ◌↔◌, inl, inr, true, false, Option, none, some, [],
  ◌∷◌, ◌++◌, length, take, drop, pos, Bytes, bytes, if◌then◌else◌, Bool-cases, ==-iff, arith,
  nat_eq, bytes_eq_instance, bytes_beq, ◌==◌,
}
use metroserver.Tests.{song, other_song}
use metroserver.Tests.Wires.{
  take-append, drop-append, flag, some-injective, put_head, put_queue, put_playback, playback_of,
  playback_of-put, small_tag, small_value, put_playback-Fields,
}
use metroserver.Limits.{max_queue_input_size}
use metroserver.Wire.{
  Library, IsDocumented, Envelope, Kind, creating, joining, approving, rejecting, playing,
  buffering, pinging, kicking, transferring, suggesting, approving_suggestion, rejecting_suggestion,
  reconnecting, announcing, PbOf, PbMessage, pb_client, Fields,
}
use metroserver.Protocol.{JoinRoomPayload, PlaybackActionPayload, zero_playback}
use metroserver.Cardinality.{validate_playback_action_cardinality}
use metroserver.Cardinality.Laws.{validate_playback_action_cardinality_lem}
use metroserver.ToProto.{track_info_to_proto, playback_to_proto, client_to_proto}
use metroserver.Convert.{decode_payload}
use metroserver.Convert.RoundTrip.{IsWithinInput, carried, decode_payload-marshal}
use metroserver.Codec.{kind_name, decode_protobuf, encode_protobuf, receive, request_for}
use metroserver.Codec.Envelopes.{
  IsWithinEnvelope, decode_protobuf-IsWithinEnvelope, receive-encode_protobuf,
}

-- Two strings, the first with its length before it.
abbrev put_pair : Bytes → Bytes → Bytes
put_pair a b = length a ∷ a ++ b

abbrev join_long : JoinRoomPayload
join_long = record {
  room_code = bytes "ABCD1234";
  username =
      bytes
        "one two three four five six seven eight nine ten eleven twelve thirteen fourteen fifteen sixteen seventeen";
}

abbrev long_wire : Bytes
long_wire = put_pair join_long.room_code join_long.username

unfoldable small_marshal_envelope : Envelope → Option Bytes
small_marshal_envelope e =
    some (e.request_id ∷ (if e.compressed then 1 else 0) ∷ put_pair e.msg_type e.payload)

unfoldable small_unmarshal_envelope : Bytes → Option Envelope
small_unmarshal_envelope (id ∷ flag ∷ n ∷ rest) = some (record {
  msg_type = take n rest;
  payload = drop n rest;
  compressed = flag == 1;
  request_id = id;
})
small_unmarshal_envelope _ = none

unfoldable small_marshal : PbMessage → Option Bytes
small_marshal (pb_client joining m) = some (put_pair m.0 m.1)
small_marshal (pb_client playing m) = put_playback m
small_marshal _ = none

unfoldable small_unmarshal : (k : Kind) → Bytes → Option (PbOf k)
small_unmarshal joining (n ∷ rest) = some (take n rest, drop n rest)
small_unmarshal playing wire = playback_of wire
small_unmarshal _ _ = none

unfoldable small_compress : Bytes → Option Bytes
small_compress wire = if wire == long_wire then some (7 ∷ []) else none

unfoldable small_gunzip : ℕ → Bytes → Option Bytes
small_gunzip n zipped = if zipped == 7 ∷ [] then some (take n long_wire) else none

abbrev small_library : Library
small_library = record {
  marshal_envelope = small_marshal_envelope;
  unmarshal_envelope = small_unmarshal_envelope;
  marshal = small_marshal;
  unmarshal = small_unmarshal;
  consume_tag = small_tag;
  consume_field_value = small_value;
  compress = small_compress;
  gunzip = small_gunzip;
}

small-envelope :
    (e : Envelope) (wire : Bytes)
    → small_marshal_envelope e ≡ some wire
    → small_unmarshal_envelope wire ≡ some e
unfolding small_marshal_envelope small_unmarshal_envelope
small-envelope e wire h =
    subst (λ w. small_unmarshal_envelope w ≡ some e) (some-injective _ wire h)
      (rw (take-append e.msg_type e.payload, drop-append e.msg_type e.payload, flag e.compressed))

small-payload :
    (k : Kind) (m : PbOf k) (wire : Bytes)
    → small_marshal (pb_client k m) ≡ some wire
    → small_unmarshal k wire ≡ some m
unfolding small_marshal small_unmarshal
small-payload joining m wire h =
    subst (λ w. small_unmarshal joining w ≡ some m) (some-injective _ wire h)
      (rw (take-append m.0 m.1, drop-append m.0 m.1))
small-payload creating m wire h = cc
small-payload approving m wire h = cc
small-payload rejecting m wire h = cc
small-payload playing m wire h = playback_of-put m wire h
small-payload buffering m wire h = cc
small-payload pinging m wire h = cc
small-payload kicking m wire h = cc
small-payload transferring m wire h = cc
small-payload suggesting m wire h = cc
small-payload approving_suggestion m wire h = cc
small-payload rejecting_suggestion m wire h = cc
small-payload reconnecting m wire h = cc
small-payload announcing m wire h = cc

small-compress :
    (wire zipped : Bytes) (n : ℕ)
    → small_compress wire ≡ some zipped
    → small_gunzip n zipped ≡ some (take n wire)
unfolding small_compress small_gunzip bytes_beq
small-compress wire zipped n h = elim (Bool-cases (wire == long_wire)) [
  | inl y ↦
      let same : wire ≡ long_wire = (==-iff wire long_wire).0 y in
      let h' : some (7 ∷ []) ≡ some zipped = rw y at h in
      rw (sym (some-injective _ zipped h'), same)
  | inr other ↦ let h' : none ≡ some zipped = rw other at h in cc
]

small-tag :
    (wire : Bytes) (number wire_type n : ℕ)
    → small_tag wire ≡ some (number, wire_type, n)
    → (0 < n) × (n ≤ length wire)
unfolding small_tag
small-tag [] number wire_type n h = cc
small-tag (t ∷ rest) number wire_type n h =
    let one : 1 ≡ n = ap (λ p. p.2) (some-injective _ _ h) in
    (omega (arith, one), omega (arith, one))

small_library-IsDocumented : IsDocumented small_library
unfolding small_marshal small_marshal_envelope small_tag
small_library-IsDocumented = record {
  envelope_law = small-envelope;
  payload_law = small-payload;
  typed_law = λ e wire h t z. cc;
  entries_law = put_playback-Fields small_library refl refl;
  tag_law = small-tag;
  compress_law = small-compress;
}

-- A field of the queue with one byte, and one with none.
abbrev two_entries : Bytes
two_entries = 50 ∷ 1 ∷ 9 ∷ 50 ∷ 0 ∷ []

validate_playback_action_cardinality_lem_example :
    (validate_playback_action_cardinality small_library two_entries ≡ true)
    ↔ ((k : ℕ) × Fields small_library two_entries k × (k ≤ max_queue_input_size))
validate_playback_action_cardinality_lem_example =
    validate_playback_action_cardinality_lem small_library small_library-IsDocumented two_entries

two_entries-pass : validate_playback_action_cardinality small_library two_entries ≡ true
unfolding validate_playback_action_cardinality small_tag small_value
two_entries-pass = refl

abbrev two_tracks : PlaybackActionPayload
two_tracks = record zero_playback {
  action = bytes "sync_queue";
  queue =
      record song { title = []; artist = []; album = [] }
      ∷ record other_song { title = []; artist = []; album = [] }
      ∷ [];
  replace_queue = true;
}

abbrev two_tracks_wire : Bytes
two_tracks_wire =
    10
    ∷ length (put_head (client_to_proto playing two_tracks))
    ∷ (put_head (client_to_proto playing two_tracks)
        ++ put_queue (map track_info_to_proto two_tracks.queue))

two_tracks-marshalled :
    small_marshal (pb_client playing (client_to_proto playing two_tracks)) ≡ some two_tracks_wire
unfolding small_marshal client_to_proto playback_to_proto track_info_to_proto bytes_beq
two_tracks-marshalled = refl

decode_payload-marshal_example :
    decode_payload small_library playing two_tracks_wire ≡ some (carried playing two_tracks)
unfolding IsWithinInput
decode_payload-marshal_example =
    decode_payload-marshal small_library small_library-IsDocumented playing two_tracks
      two_tracks_wire two_tracks-marshalled (omega arith)

decode_protobuf-IsWithinEnvelope_example :
    IsWithinEnvelope (decode_protobuf small_library (3 ∷ 1 ∷ put_pair (bytes "join_room") (7 ∷ [])))
decode_protobuf-IsWithinEnvelope_example =
    decode_protobuf-IsWithinEnvelope small_library (3 ∷ 1 ∷ put_pair (bytes "join_room") (7 ∷ []))

-- The envelope around it.
abbrev two_tracks_envelope : Bytes
two_tracks_envelope = 3 ∷ 0 ∷ put_pair (kind_name playing) two_tracks_wire

receive-encode_protobuf_example :
    receive small_library two_tracks_envelope (pos 5)
    ≡ (3, request_for playing (some (carried playing two_tracks)) (pos 5))
unfolding small_marshal client_to_proto playback_to_proto track_info_to_proto IsWithinInput
    kind_name small_marshal_envelope small_compress encode_protobuf bytes_beq
receive-encode_protobuf_example =
    receive-encode_protobuf small_library small_library-IsDocumented false playing two_tracks 3
      two_tracks_wire two_tracks_envelope (pos 5) two_tracks-marshalled (omega arith) (omega arith)
      refl
