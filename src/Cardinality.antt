-- ===== src/Cardinality.antt =====
-- validatePlaybackActionCardinality of internal/server/codec.go: the entries of the queue are counted on
-- the wire before the payload is unmarshalled.
pub mod Laws
use metroserver.Prelude.{
  ℕ, zero, suc, Bool, true, false, none, some, [], ◌∷◌, length, drop, ltb, Bytes, if◌then◌else◌,
}
use metroserver.Limits.{max_queue_input_size}
use metroserver.Wire.{Library, is_queue_field}

module _ (lib : Library) where
  -- The loop over the data, `entries` entries of the queue having been met; false is an error. Each turn
  -- consumes a byte at least, so that as much fuel as there are bytes is enough.
  unfoldable pub count_entries : ℕ → ℕ → Bytes → Bool
  count_entries fuel entries [] = true
  count_entries zero entries (b ∷ bs) = false
  count_entries (suc fuel) entries (b ∷ bs) = elim (lib.consume_tag (b ∷ bs)) [
    | none ↦ false
    | some (number, wire_type, tag_length) ↦
        let rest = drop tag_length (b ∷ bs) in
        elim (lib.consume_field_value number wire_type rest) [
          | none ↦ false
          | some field_length ↦
              let met = if is_queue_field number wire_type then suc entries else entries in
              let others = count_entries fuel met (drop field_length rest) in
              if ltb max_queue_input_size met then false else others
        ]
  ]

  unfoldable pub validate_playback_action_cardinality : Bytes → Bool
  unfolding count_entries
  validate_playback_action_cardinality wire = count_entries (length wire) 0 wire
