-- ===== src/Codec.antt =====
-- internal/server/codec.go: the envelope around every message, with its compression and its limits, and the
-- request that handleMessage (server.go) and decodePayload read from the bytes that a client sends.
pub mod Envelopes
use metroserver.Prelude.{
  ℕ, ◌+◌, Bool, true, false, ◌&&◌, Option, none, some, List, [], ◌∷◌, length, ltb, ℤ, Bytes, bytes,
  if◌then◌else◌, nat_eq, bytes_eq_instance, ◌==◌,
}
use metroserver.Limits.{max_envelope_type_length, max_decoded_payload_size, max_read_message_size}
use metroserver.Wire.{
  Library, Envelope, Kind, creating, joining, approving, rejecting, playing, buffering, pinging,
  kicking, transferring, suggesting, approving_suggestion, rejecting_suggestion, reconnecting,
  announcing,
}
use metroserver.ToProto.{PayloadOf, Payload, to_proto_message}
use metroserver.Convert.{decode_payload}
use metroserver.Dispatch.{
  Request, create_room, join_room, leave, approve_join, reject_join, playback_action, buffer_ready,
  kick_user, transfer_host, ping, request_sync, reconnect, suggest_track, approve_suggestion,
  reject_suggestion, client_capabilities, unknown, too_large, untyped, malformed,
}

unfoldable pub kind_name : Kind → Bytes
unfolding bytes
kind_name creating = bytes "create_room"
kind_name joining = bytes "join_room"
kind_name approving = bytes "approve_join"
kind_name rejecting = bytes "reject_join"
kind_name playing = bytes "playback_action"
kind_name buffering = bytes "buffer_ready"
kind_name pinging = bytes "ping"
kind_name kicking = bytes "kick_user"
kind_name transferring = bytes "transfer_host"
kind_name suggesting = bytes "suggest_track"
kind_name approving_suggestion = bytes "approve_suggestion"
kind_name rejecting_suggestion = bytes "reject_suggestion"
kind_name reconnecting = bytes "reconnect"
kind_name announcing = bytes "client_capabilities"

-- The cases of the switches over the type that read a payload.
abbrev pub kinds : List Kind
kinds =
    creating ∷ joining ∷ approving ∷ rejecting ∷ playing ∷ buffering ∷ kicking ∷ transferring
    ∷ pinging ∷ reconnecting ∷ suggesting ∷ approving_suggestion ∷ rejecting_suggestion ∷ announcing
    ∷ []

unfoldable pub find_kind : List Kind → Bytes → Option Kind
unfolding kind_name
find_kind [] name = none
find_kind (k ∷ rest) name = if kind_name k == name then some k else find_kind rest name

-- The request that carries the payload of a kind.
unfoldable pub request_for : (k : Kind) → Option (PayloadOf k) → ℤ → Request
request_for creating p received_at = create_room p
request_for joining p received_at = join_room p
request_for approving p received_at = approve_join p
request_for rejecting p received_at = reject_join p
request_for playing p received_at = playback_action p
request_for buffering p received_at = buffer_ready p
request_for pinging p received_at = ping p received_at
request_for kicking p received_at = kick_user p
request_for transferring p received_at = transfer_host p
request_for suggesting p received_at = suggest_track p
request_for approving_suggestion p received_at = approve_suggestion p
request_for rejecting_suggestion p received_at = reject_suggestion p
request_for reconnecting p received_at = reconnect p
request_for announcing p received_at = client_capabilities p

-- What decodeProtobuf returns: the type, the payload and the request's id, or an error, with whether it is
-- about the size, and the id as far as it is known.
pub data Decoded : Type 0 where
  decoded : Bytes → Bytes → ℕ → Decoded
  failed : Bool → ℕ → Decoded

-- What decompressData returns; the error says whether the data is too large.
pub data Decompressed : Type 0 where
  decompressed : Bytes → Decompressed
  not_decompressed : Bool → Decompressed

module _ (lib : Library) where
  unfoldable pub decompress_data : Bytes → Decompressed
  decompress_data zipped = elim (lib.gunzip (max_decoded_payload_size + 1) zipped) [
    | none ↦ not_decompressed false
    | some out ↦
        if ltb max_decoded_payload_size (length out)
        then not_decompressed true
        else decompressed out
  ]

  -- The last check of decodeProtobuf.
  unfoldable pub limit_payload : Bytes → ℕ → Bytes → Decoded
  limit_payload msg_type request_id payload =
      if ltb max_decoded_payload_size (length payload)
      then failed true request_id
      else decoded msg_type payload request_id

  unfoldable pub open_envelope : Envelope → Decoded
  unfolding limit_payload decompress_data
  open_envelope e =
      if ltb max_envelope_type_length (length e.msg_type)
      then failed false e.request_id
      else if ltb max_read_message_size (length e.payload)
      then failed true e.request_id
      else if e.compressed
      then (elim (decompress_data e.payload) [
        | decompressed payload ↦ limit_payload e.msg_type e.request_id payload
        | not_decompressed is_large ↦ failed is_large e.request_id
      ])
      else limit_payload e.msg_type e.request_id e.payload

  unfoldable pub decode_protobuf : Bytes → Decoded
  unfolding open_envelope
  decode_protobuf wire =
      if wire == []
      then failed false 0
      else elim (lib.unmarshal_envelope wire) [ none ↦ failed false 0 | some e ↦ open_envelope e ]

  -- The payload as it is sent, and whether it is compressed: only if that makes it shorter.
  unfoldable pub pack : Bool → Bytes → Bytes × Bool
  pack compression payload =
      if compression && ltb 100 (length payload)
      then (elim (lib.compress payload) [
        | none ↦ (payload, false)
        | some zipped ↦
            if ltb (length zipped) (length payload) then (zipped, true) else (payload, false)
      ])
      else (payload, false)

  unfoldable pub seal : Bool → Bytes → Bytes → ℕ → Option Bytes
  unfolding pack
  seal compression msg_type payload request_id =
      let packed = pack compression payload in
      lib.marshal_envelope (record {
        msg_type = msg_type;
        payload = packed.0;
        compressed = packed.1;
        request_id = request_id;
      })

  -- encodeProtobuf; none is an error.
  unfoldable pub encode_protobuf : Bool → Bytes → Payload → ℕ → Option Bytes
  unfolding seal to_proto_message
  encode_protobuf compression msg_type payload request_id = elim (to_proto_message payload) [
    | none ↦ seal compression msg_type [] request_id
    | some m ↦ elim (lib.marshal m) [
      | none ↦ none
      | some wire ↦ seal compression msg_type wire request_id
    ]
  ]

  -- The cases of handleMessage that have no payload.
  unfoldable pub bare_request : Bytes → Request
  bare_request msg_type =
      if msg_type == bytes "leave_room"
      then leave
      else if msg_type == bytes "request_sync"
      then request_sync
      else unknown msg_type

  -- The switch of handleMessage over the type, with the payload that the handler decodes.
  unfoldable pub request_of : Bytes → Bytes → ℤ → Request
  unfolding find_kind request_for decode_payload
  request_of msg_type payload received_at =
      if msg_type == [] then untyped else elim (find_kind kinds msg_type) [
        | some k ↦ request_for k (decode_payload lib k payload) received_at
        | none ↦ bare_request msg_type
      ]

  -- What handleMessage reads from the data of a client: the id, and the request.
  unfoldable pub receive : Bytes → ℤ → ℕ × Request
  unfolding decode_protobuf request_of
  receive wire received_at = elim (decode_protobuf wire) [
    | failed is_large request_id ↦ (request_id, if is_large then too_large else malformed)
    | decoded msg_type payload request_id ↦ (request_id, request_of msg_type payload received_at)
  ]
