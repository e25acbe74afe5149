-- ===== src/Convert/RoundTrip.antt =====
-- What a payload keeps on its way through the generated structs and the wire.
use metroserver.Prelude.{
  ℕ, suc, ◌≤◌, ◌≡◌, refl, ap, true, false, Option, none, some, List, [], ◌∷◌, map, length, ltb,
  Bytes, All, arith, nat_eq, bytes_eq_instance,
}
use metroserver.Limits.{max_queue_input_size, max_client_features, max_feature_name_length}
use metroserver.Float32.{float32}
use metroserver.Protocol.{TrackInfo}
use metroserver.Wire.{
  Library, IsDocumented, Kind, creating, joining, approving, rejecting, playing, buffering, pinging,
  kicking, transferring, suggesting, approving_suggestion, rejecting_suggestion, reconnecting,
  announcing, pb_client,
}
use metroserver.Cardinality.Laws.{validate_playback_action_cardinality_lem}
use metroserver.ToProto.{
  track_info_to_proto, map_track, playback_to_proto, ping_to_proto, PayloadOf, client_to_proto,
}
use metroserver.Convert.{
  proto_to_track_info, proto_to_playback, proto_to_ping, are_short, convert, passes_cardinality,
  decode_payload,
}

-- What the receiver reads of a payload: of a playback action the volume as a float32, and no origin.
unfoldable pub carried : (k : Kind) → PayloadOf k → PayloadOf k
carried playing p = record p { volume = float32 p.volume; origin_user_id = [] }
carried creating p = p
carried joining p = p
carried approving p = p
carried rejecting p = p
carried buffering p = p
carried pinging p = p
carried kicking p = p
carried transferring p = p
carried suggesting p = p
carried approving_suggestion p = p
carried rejecting_suggestion p = p
carried reconnecting p = p
carried announcing p = p

-- The limits on the lists of a payload.
unfoldable pub IsWithinInput : (k : Kind) → PayloadOf k → Type 0
IsWithinInput playing p = length p.queue ≤ max_queue_input_size
IsWithinInput announcing p =
    (length p.features ≤ max_client_features)
    × All (λ name. length name ≤ max_feature_name_length) p.features
IsWithinInput _ p = Unit

proto_to_track_info-track_info_to_proto :
    (t : TrackInfo) → proto_to_track_info (track_info_to_proto t) ≡ t
unfolding proto_to_track_info track_info_to_proto
proto_to_track_info-track_info_to_proto t = refl

map_track-map_track :
    (t : Option TrackInfo) → map_track proto_to_track_info (map_track track_info_to_proto t) ≡ t
map_track-map_track none = refl
map_track-map_track (some t) = ap some (proto_to_track_info-track_info_to_proto t)

map-map_track : (ts : List TrackInfo) → map proto_to_track_info (map track_info_to_proto ts) ≡ ts
map-map_track [] = refl
map-map_track (t ∷ ts) = rw (proto_to_track_info-track_info_to_proto t, map-map_track ts)

length-map : {A B : Type 0} (f : A → B) (xs : List A) → length (map f xs) ≡ length xs
length-map f [] = refl
length-map f (x ∷ xs) = ap suc (length-map f xs)

le→not_ltb : (a b : ℕ) → a ≤ b → ltb b a ≡ false
le→not_ltb a b h = ground (arith, h)

are_short-true :
    (names : List Bytes)
    → All (λ name. length name ≤ max_feature_name_length) names
    → are_short names ≡ true
are_short-true [] h = refl
are_short-true (name ∷ rest) (h, hs) = ground (arith, h, are_short-true rest hs)

convert-client_to_proto :
    (k : Kind) (p : PayloadOf k)
    → IsWithinInput k p
    → convert k (client_to_proto k p) ≡ some (carried k p)
unfolding convert client_to_proto carried IsWithinInput proto_to_ping ping_to_proto
    playback_to_proto proto_to_playback
convert-client_to_proto creating p h = refl
convert-client_to_proto joining p h = refl
convert-client_to_proto approving p h = refl
convert-client_to_proto rejecting p h = refl
convert-client_to_proto playing p h = rw (
  length-map track_info_to_proto p.queue,
  le→not_ltb (length p.queue) max_queue_input_size h,
  map-map_track p.queue,
  map_track-map_track p.track_info,
)
convert-client_to_proto buffering p h = refl
convert-client_to_proto pinging p h = refl
convert-client_to_proto kicking p h = refl
convert-client_to_proto transferring p h = refl
convert-client_to_proto suggesting p h = rw (map_track-map_track p.track_info)
convert-client_to_proto approving_suggestion p h = refl
convert-client_to_proto rejecting_suggestion p h = refl
convert-client_to_proto reconnecting p h = refl
convert-client_to_proto announcing p h =
    rw (le→not_ltb (length p.features) max_client_features h.0, are_short-true p.features h.1)

module _ (lib : Library) (doc : IsDocumented lib) where
  passes_cardinality-true :
      (k : Kind) (p : PayloadOf k) (wire : Bytes)
      → lib.marshal (pb_client k (client_to_proto k p)) ≡ some wire
      → IsWithinInput k p
      → passes_cardinality lib k wire ≡ true
  unfolding passes_cardinality IsWithinInput client_to_proto playback_to_proto
  passes_cardinality-true playing p wire e h =
      (validate_playback_action_cardinality_lem lib doc wire).1 (
        length (map track_info_to_proto p.queue),
        doc.entries_law (playback_to_proto p) wire e,
        rw (length-map track_info_to_proto p.queue) h,
      )
  passes_cardinality-true creating p wire e h = refl
  passes_cardinality-true joining p wire e h = refl
  passes_cardinality-true approving p wire e h = refl
  passes_cardinality-true rejecting p wire e h = refl
  passes_cardinality-true buffering p wire e h = refl
  passes_cardinality-true pinging p wire e h = refl
  passes_cardinality-true kicking p wire e h = refl
  passes_cardinality-true transferring p wire e h = refl
  passes_cardinality-true suggesting p wire e h = refl
  passes_cardinality-true approving_suggestion p wire e h = refl
  passes_cardinality-true rejecting_suggestion p wire e h = refl
  passes_cardinality-true reconnecting p wire e h = refl
  passes_cardinality-true announcing p wire e h = refl

  -- With libraries that keep their documented laws, the marshalled bytes of a client's payload whose lists are within
  -- the limits (2000 queue entries; for capabilities the number and the length of the features) decode to what the wire
  -- carries of it: the payload itself, but for a playback action, whose volume is rounded to a float32 and whose origin
  -- is erased.
  pub decode_payload-marshal :
      (k : Kind) (p : PayloadOf k) (wire : Bytes)
      → lib.marshal (pb_client k (client_to_proto k p)) ≡ some wire
      → IsWithinInput k p
      → decode_payload lib k wire ≡ some (carried k p)
  unfolding decode_payload
  decode_payload-marshal k p wire e h = rw (
    passes_cardinality-true k p wire e h,
    doc.payload_law k (client_to_proto k p) wire e,
    convert-client_to_proto k p h,
  )
