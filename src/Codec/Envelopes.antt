-- ===== src/Codec/Envelopes.antt =====
-- The envelope's limits, and its round trip.
use metroserver.Prelude.{
  ℕ, zero, suc, ◌+◌, ◌⊎◌, inl, inr, ◌≤◌, ◌<◌, ◌≡◌, ◌≢◌, refl, ap, Bool, true, false, ◌&&◌, some, [],
  ◌∷◌, take, length, ltb, ℤ, Bytes, arith, if_keeps, some_keeps, ltb→lt, ltb-false→le, nat_eq,
  bytes_eq_instance, ◌==◌, bytes_beq,
}
use metroserver.Limits.{max_envelope_type_length, max_decoded_payload_size, max_read_message_size}
use metroserver.Wire.{
  Library, IsDocumented, Envelope, Kind, pb_client, creating, joining, approving, rejecting,
  playing, buffering, pinging, kicking, transferring, suggesting, approving_suggestion,
  rejecting_suggestion, reconnecting, announcing,
}
use metroserver.ToProto.{PayloadOf, from_client, to_proto_message, client_to_proto}
use metroserver.Convert.{decode_payload}
use metroserver.Convert.RoundTrip.{carried, IsWithinInput, decode_payload-marshal}
use metroserver.Codec.{
  Decoded, decoded, failed, Decompressed, decompressed, not_decompressed, decompress_data,
  limit_payload, open_envelope, decode_protobuf, pack, seal, encode_protobuf, request_of,
  request_for, receive, find_kind, kinds, kind_name,
}

find_kind-kind_name : (k : Kind) → find_kind kinds (kind_name k) ≡ some k
unfolding find_kind kind_name bytes_beq
find_kind-kind_name creating = refl
find_kind-kind_name joining = refl
find_kind-kind_name approving = refl
find_kind-kind_name rejecting = refl
find_kind-kind_name playing = refl
find_kind-kind_name buffering = refl
find_kind-kind_name pinging = refl
find_kind-kind_name kicking = refl
find_kind-kind_name transferring = refl
find_kind-kind_name suggesting = refl
find_kind-kind_name approving_suggestion = refl
find_kind-kind_name rejecting_suggestion = refl
find_kind-kind_name reconnecting = refl
find_kind-kind_name announcing = refl

length-kind_name : (k : Kind) → (0 < length (kind_name k)) × (length (kind_name k) ≤ 64)
unfolding kind_name
length-kind_name creating = omega arith
length-kind_name joining = omega arith
length-kind_name approving = omega arith
length-kind_name rejecting = omega arith
length-kind_name playing = omega arith
length-kind_name buffering = omega arith
length-kind_name pinging = omega arith
length-kind_name kicking = omega arith
length-kind_name transferring = omega arith
length-kind_name suggesting = omega arith
length-kind_name approving_suggestion = omega arith
length-kind_name rejecting_suggestion = omega arith
length-kind_name reconnecting = omega arith
length-kind_name announcing = omega arith

kind_name-nonempty : (k : Kind) → kind_name k ≢ []
kind_name-nonempty k e = ground (arith, length-kind_name k, ap {A = Bytes} length e)

not_nil : (xs : Bytes) → xs ≢ [] → xs == [] ≡ false
unfolding bytes_beq
not_nil [] h = absurd (h refl)
not_nil (x ∷ xs) h = refl

request_of-kind_name :
    (lib : Library) (k : Kind) (payload : Bytes) (received_at : ℤ)
    → request_of lib (kind_name k) payload received_at
      ≡ request_for k (decode_payload lib k payload) received_at
unfolding request_of
request_of-kind_name lib k payload received_at =
    rw (not_nil (kind_name k) (kind_name-nonempty k), find_kind-kind_name k)

take-all : (n : ℕ) (xs : Bytes) → length xs ≤ n → take n xs ≡ xs
take-all zero [] h = refl
take-all zero (x ∷ xs) h = ground (arith, h)
take-all (suc n) [] h = refl
take-all (suc n) (x ∷ xs) h = ap (◌∷◌ x) (take-all n xs (omega (arith, h)))

ltb-le : (a b : ℕ) → a ≤ b → ltb b a ≡ false
ltb-le a b h = ground (arith, h)

-- A message that decodes is within the limits.
unfoldable pub IsWithinEnvelope : Decoded → Type 0
IsWithinEnvelope (decoded msg_type payload request_id) =
    (length msg_type ≤ max_envelope_type_length) × (length payload ≤ max_decoded_payload_size)
IsWithinEnvelope (failed is_large request_id) = Unit

module _ (lib : Library) where
  limit_payload-IsWithinEnvelope :
      (t : Bytes) (id : ℕ) (payload : Bytes)
      → length t ≤ max_envelope_type_length
      → IsWithinEnvelope (limit_payload lib t id payload)
  unfolding limit_payload IsWithinEnvelope
  limit_payload-IsWithinEnvelope t id payload h =
      if_keeps IsWithinEnvelope (ltb max_decoded_payload_size (length payload)) (λ _. tt)
        (λ small. (h, ltb-false→le _ _ small))

  open_envelope-IsWithinEnvelope : (e : Envelope) → IsWithinEnvelope (open_envelope lib e)
  unfolding open_envelope IsWithinEnvelope
  open_envelope-IsWithinEnvelope e =
      if_keeps IsWithinEnvelope (ltb max_envelope_type_length (length e.msg_type)) (λ _. tt)
        (λ short.
          let typed = limit_payload-IsWithinEnvelope e.msg_type e.request_id in
          if_keeps IsWithinEnvelope (ltb max_read_message_size (length e.payload)) (λ _. tt)
            (λ _.
              if_keeps IsWithinEnvelope e.compressed
                (λ _.
                  inflated (decompress_data lib e.payload) (λ p. typed p (ltb-false→le _ _ short)))
                (λ _. typed e.payload (ltb-false→le _ _ short))))
    where
      inflated :
          (d : Decompressed)
          → ((p : Bytes) → IsWithinEnvelope (limit_payload lib e.msg_type e.request_id p))
          → IsWithinEnvelope (elim d [
            | decompressed payload ↦ limit_payload lib e.msg_type e.request_id payload
            | not_decompressed is_large ↦ failed is_large e.request_id
          ])
      inflated (decompressed payload) h = h payload
      inflated (not_decompressed is_large) h = tt

  -- Whatever the libraries do with the data of a client: a message that decodes has a type of at most 64
  -- bytes and a payload of at most 2097152 bytes, decompressed.
  pub decode_protobuf-IsWithinEnvelope :
      (wire : Bytes) → IsWithinEnvelope (decode_protobuf lib wire)
  unfolding decode_protobuf IsWithinEnvelope
  decode_protobuf-IsWithinEnvelope wire =
      if_keeps IsWithinEnvelope (wire == []) (λ _. tt)
        (λ _.
          some_keeps IsWithinEnvelope (lib.unmarshal_envelope wire) (λ _. tt)
            (λ e _. open_envelope-IsWithinEnvelope e))

module _ (lib : Library) (doc : IsDocumented lib) where
  -- The payload is sent as it is, or compressed and shorter.
  IsPacked : Bytes → Bytes × Bool → Type 0
  IsPacked payload packed =
      (packed ≡ (payload, false))
      ⊎ ((zipped : Bytes) × (lib.compress payload ≡ some zipped)
          × (length zipped < length payload)
          × (packed ≡ (zipped, true)))

  pack-IsPacked :
      (compression : Bool) (payload : Bytes) → IsPacked payload (pack lib compression payload)
  unfolding pack IsPacked
  pack-IsPacked compression payload =
      if_keeps (IsPacked payload) (compression && ltb 100 (length payload))
        (λ _.
          some_keeps (IsPacked payload) (lib.compress payload) (λ _. inl refl)
            (λ zipped e.
              if_keeps (IsPacked payload) (ltb (length zipped) (length payload))
                (λ short. inr (zipped, e, ltb→lt _ _ short, refl)) (λ _. inl refl)))
        (λ _. inl refl)

  limit_payload_small :
      (t payload : Bytes) (id : ℕ)
      → length payload ≤ max_decoded_payload_size
      → limit_payload lib t id payload ≡ decoded t payload id
  unfolding limit_payload
  limit_payload_small t payload id h = rw (ltb-le (length payload) max_decoded_payload_size h)

  open_envelope-pack :
      (t payload : Bytes) (id : ℕ) (packed : Bytes × Bool)
      → IsPacked payload packed
      → length t ≤ max_envelope_type_length
      → length payload ≤ max_read_message_size
      → open_envelope lib
          (record { msg_type = t; payload = packed.0; compressed = packed.1; request_id = id })
        ≡ decoded t payload id
  unfolding open_envelope decompress_data IsPacked
  open_envelope-pack t payload id packed (inl e) ht hp = rw (
    e,
    ltb-le (length t) max_envelope_type_length ht,
    ltb-le (length payload) max_read_message_size hp,
    limit_payload_small t payload id (omega (arith, hp)),
  )
  open_envelope-pack t payload id packed (inr (zipped, ez, short, e)) ht hp = rw (
    e,
    ltb-le (length t) max_envelope_type_length ht,
    ltb-le (length zipped) max_read_message_size (omega (arith, hp, short)),
    doc.compress_law payload zipped (max_decoded_payload_size + 1) ez,
    take-all (max_decoded_payload_size + 1) payload (omega (arith, hp)),
    ltb-le (length payload) max_decoded_payload_size (omega (arith, hp)),
    limit_payload_small t payload id (omega (arith, hp)),
  )

  seal-decode_protobuf :
      (compression : Bool) (t payload : Bytes) (id : ℕ) (wire : Bytes)
      → seal lib compression t payload id ≡ some wire
      → t ≢ []
      → length t ≤ max_envelope_type_length
      → length payload ≤ max_read_message_size
      → decode_protobuf lib wire ≡ decoded t payload id
  unfolding seal decode_protobuf
  seal-decode_protobuf compression t payload id wire e nonempty ht hp = rw (
    not_nil wire (doc.typed_law _ wire e nonempty),
    doc.envelope_law _ wire e,
    open_envelope-pack t payload id (pack lib compression payload)
        (pack-IsPacked compression payload) ht hp,
  )

  -- With libraries that keep their documented laws: if encodeProtobuf makes a message of a client's payload, compressed
  -- or not, whose lists are within the limits and whose marshalled bytes are at most 524288, then the message is
  -- received with its request id as what the wire carries of the payload: the payload itself, but for a playback
  -- action, whose volume is rounded to a float32 and whose origin is erased.
  pub receive-encode_protobuf :
      (compression : Bool) (k : Kind) (p : PayloadOf k) (id : ℕ) (payload wire : Bytes)
      (received_at : ℤ)
      → lib.marshal (pb_client k (client_to_proto k p)) ≡ some payload
      → length payload ≤ max_read_message_size
      → IsWithinInput k p
      → encode_protobuf lib compression (kind_name k) (from_client k p) id ≡ some wire
      → receive lib wire received_at ≡ (id, request_for k (some (carried k p)) received_at)
  unfolding encode_protobuf receive to_proto_message
  receive-encode_protobuf compression k p id payload wire received_at em hp within e =
      let sealed : seal lib compression (kind_name k) payload id ≡ some wire = rw em at e in
      rw (
        receive,
        seal-decode_protobuf compression (kind_name k) payload id wire sealed (kind_name-nonempty k)
            (length-kind_name k).1 hp,
        request_of-kind_name lib k payload received_at,
        decode_payload-marshal lib doc k p payload em within,
      )
