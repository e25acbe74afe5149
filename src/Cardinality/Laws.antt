-- ===== src/Cardinality/Laws.antt =====
-- validatePlaybackActionCardinality against the grammar of the wire format.
use metroserver.Prelude.{
  ℕ, zero, suc, ◌+◌, ◌≤◌, ◌<◌, ◌≡◌, refl, sym, subst, ◌↔◌, Bool, true, false, some, List, [], ◌∷◌,
  length, drop, ltb, Bytes, if◌then◌else◌, if_keeps, some_keeps, arith, nat_eq, ltb-false→le,
}
use metroserver.Limits.{max_queue_input_size}
use metroserver.Wire.{Library, IsDocumented, Fields, no_field, one_field, is_queue_field}
use metroserver.Cardinality.{count_entries, validate_playback_action_cardinality}

length-drop-le : {A : Type 0} (n : ℕ) (xs : List A) → length (drop n xs) ≤ length xs
length-drop-le zero xs = omega arith
length-drop-le (suc n) [] = omega arith
length-drop-le (suc n) (x ∷ xs) = omega (arith, length-drop-le n xs)

length-drop-lt :
    {A : Type 0} (n : ℕ) (xs : List A) → 0 < n → n ≤ length xs → length (drop n xs) < length xs
length-drop-lt zero xs h k = omega (arith, h)
length-drop-lt (suc n) [] h k = omega (arith, k)
length-drop-lt (suc n) (x ∷ xs) h k = omega (arith, length-drop-le n xs)

le→ltb-false : (a b : ℕ) → a ≤ b → ltb b a ≡ false
le→ltb-false a b h = ground (arith, h)

module _ (lib : Library) (doc : IsDocumented lib) where
  -- What the loop leaves of the data is shorter.
  remains-lt :
      (wire : Bytes) (number wire_type n m : ℕ)
      → lib.consume_tag wire ≡ some (number, wire_type, n)
      → length (drop m (drop n wire)) < length wire
  remains-lt wire number wire_type n m e =
      let law = doc.tag_law wire number wire_type n e in
      omega (arith, length-drop-lt n wire law.0 law.1, length-drop-le m (drop n wire))

  -- The number of entries that the fields have, from the number met before.
  AreBounded : ℕ → Bytes → Type 0
  AreBounded entries wire = (k : ℕ) × Fields lib wire k × (entries + k ≤ max_queue_input_size)

  met-plus :
      (b : Bool) (entries k : ℕ)
      → (if b then suc entries else entries) + k ≡ entries + (if b then suc k else k)
  met-plus true entries k = omega arith
  met-plus false entries k = refl

  count_entries_sound :
      (fuel entries : ℕ) (wire : Bytes)
      → entries ≤ max_queue_input_size
      → count_entries lib fuel entries wire ≡ true
      → AreBounded entries wire
  unfolding count_entries AreBounded
  count_entries_sound fuel entries [] h = λ e. (0, no_field, omega (arith, h))
  count_entries_sound zero entries (b ∷ bs) h = λ e. cc
  count_entries_sound (suc fuel) entries (b ∷ bs) h =
      let P : Bool → Type 0 = λ r. r ≡ true → AreBounded entries (b ∷ bs) in
      some_keeps P (lib.consume_tag (b ∷ bs)) (λ _. λ e. cc)
        (λ (number, wire_type, n) te.
          some_keeps P (lib.consume_field_value number wire_type (drop n (b ∷ bs))) (λ _. λ e. cc)
            (λ m me.
              if_keeps P
                (ltb max_queue_input_size
                  (if is_queue_field number wire_type then suc entries else entries))
                (λ _. λ e. cc)
                (λ small. λ e.
                  let rest =
                    count_entries_sound fuel
                      (if is_queue_field number wire_type then suc entries else entries)
                      (drop m (drop n (b ∷ bs))) (ltb-false→le _ _ small) e in
                  (
                    if is_queue_field number wire_type then suc rest.0 else rest.0,
                    one_field (b ∷ bs) number wire_type n m rest.0 te me rest.1,
                    subst (λ n. n ≤ max_queue_input_size)
                        (met-plus (is_queue_field number wire_type) entries rest.0) rest.2,
                  ))))

  count_entries_complete :
      (fuel entries k : ℕ) (wire : Bytes)
      → Fields lib wire k
      → length wire ≤ fuel
      → entries + k ≤ max_queue_input_size
      → count_entries lib fuel entries wire ≡ true
  unfolding count_entries
  count_entries_complete fuel entries k [] fields h bound = refl
  count_entries_complete zero entries k (b ∷ bs) fields h bound = ground (arith, h)
  count_entries_complete (suc fuel) entries _ (b ∷ bs)
        (one_field _ number wire_type n m k te me rest) h bound =
      let met : ℕ = if is_queue_field number wire_type then suc entries else entries in
      let small : met + k ≤ max_queue_input_size =
        subst (λ n. n ≤ max_queue_input_size)
          (sym (met-plus (is_queue_field number wire_type) entries k)) bound in
      let others : count_entries lib fuel met (drop m (drop n (b ∷ bs))) ≡ true =
        count_entries_complete fuel met k _ rest
          (omega (arith, h, remains-lt (b ∷ bs) number wire_type n m te)) small in
      rw (count_entries, te, me, le→ltb-false met max_queue_input_size (omega (arith, small)))
        others

  -- With a protowire that consumes a byte at least for each tag: the check ends with the fuel it gets,
  -- and passes exactly the data that is a sequence of fields with at most 2000 entries of the queue.
  pub validate_playback_action_cardinality_lem :
      (wire : Bytes)
      → (validate_playback_action_cardinality lib wire ≡ true)
        ↔ ((k : ℕ) × Fields lib wire k × (k ≤ max_queue_input_size))
  unfolding validate_playback_action_cardinality AreBounded
  validate_playback_action_cardinality_lem wire = (
    λ e.
        let (k, fields, bound) = count_entries_sound (length wire) 0 wire (omega arith) e in
        (k, fields, omega (arith, bound)),
    λ (k, fields, bound).
        count_entries_complete (length wire) 0 k wire fields (omega arith) (omega (arith, bound)),
  )
