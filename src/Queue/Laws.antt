-- ===== src/Queue/Laws.antt =====
-- The queue operations against plain descriptions of what they do.
use metroserver.Prelude.{
  ℕ, zero, suc, ◌+◌, ◌≤◌, ◌≡◌, refl, ap, ◌≢◌, ◌⊎◌, inl, inr, false, ◌||◌, none, some, List, [], ◌∷◌,
  ◌++◌, filter, not, arith, Bool-cases, Option-cases, length, take, length-take-le, All, Bytes,
  nat_eq, bytes_eq_instance, ◌==◌, ==-iff,
}
use metroserver.Limits.{max_queue_size}
use metroserver.Protocol.{TrackInfo}
use metroserver.Validation.{sanitize_track_info}
use metroserver.Validation.Bounds.{IsClean, sanitize_track_info-some}
use metroserver.Queue.{
  sanitize_from, sanitize_queue, queue_wire_size, contains_track_id, after_track, advance_queue,
  remove_track, IsBounded,
}

-- All tracks that can be cleaned, in order.
abbrev pub clean_all : List TrackInfo → List TrackInfo
clean_all [] = []
clean_all (t ∷ rest) = elim (sanitize_track_info t) [
  | none ↦ clean_all rest
  | some t' ↦ t' ∷ clean_all rest
]

sanitize_from_lem :
    (room kept : ℕ) (queue : List TrackInfo)
    → kept + suc room ≡ max_queue_size
    → sanitize_from kept queue ≡ take (suc room) (clean_all queue)
unfolding sanitize_from
sanitize_from_lem room kept [] h = refl
sanitize_from_lem zero kept (t ∷ rest) h = ground (arith, sanitize_from_lem zero kept rest h)
sanitize_from_lem (suc room) kept (t ∷ rest) h =
    ground (arith, sanitize_from_lem (suc room) kept rest h, sanitize_from_lem room (suc kept) rest)

-- sanitizeQueue keeps the first `max_queue_size` tracks that can be cleaned, cleaned and in order.
pub sanitize_queue-eq-take :
    (queue : List TrackInfo) → sanitize_queue queue ≡ take max_queue_size (clean_all queue)
unfolding sanitize_queue
sanitize_queue-eq-take queue = sanitize_from_lem 999 0 queue (omega arith)

clean_all-IsClean : (queue : List TrackInfo) → All IsClean (clean_all queue)
clean_all-IsClean [] = tt
clean_all-IsClean (t ∷ rest) = elim (Option-cases (sanitize_track_info t)) [
  | inl e ↦ rw (e, All, clean_all) (clean_all-IsClean rest)
  | inr (t', e) ↦
      rw (e, clean_all, All) ((sanitize_track_info-some t t' e).0, clean_all-IsClean rest)
]

All-take {ℓ κ} : {A : Type ℓ} (P : A → Type κ) (n : ℕ) (xs : List A) → All P xs → All P (take n xs)
All-take P zero xs h = tt
All-take P (suc n) [] h = tt
All-take P (suc n) (x ∷ xs) h = (h.0, All-take P n xs h.1)

-- Every track that sanitizeQueue keeps is clean: a valid ID, bounded texts and a duration of at most 24
-- hours.
pub sanitize_queue-IsClean : (queue : List TrackInfo) → All IsClean (sanitize_queue queue)
sanitize_queue-IsClean queue =
    rw sanitize_queue-eq-take (All-take IsClean max_queue_size _ (clean_all-IsClean queue))

pub length-sanitize_queue :
    (queue : List TrackInfo) → length (sanitize_queue queue) ≤ max_queue_size
length-sanitize_queue queue = rw sanitize_queue-eq-take (length-take-le max_queue_size _)

-- advanceQueue splits the queue at the first entry with the ID, and drops the first part with it.
pub data Advance (queue : List TrackInfo) (id : Bytes) (left : List TrackInfo) : Type 0 where
  absent : contains_track_id queue id ≡ false → left ≡ queue → Advance queue id left
  found :
      (before : List TrackInfo) (t : TrackInfo)
      → queue ≡ before ++ t ∷ left
      → t.id ≡ id
      → contains_track_id before id ≡ false
      → Advance queue id left

after_track_lem :
    (queue : List TrackInfo) (id : Bytes)
    → ((contains_track_id queue id ≡ false) × (after_track queue id ≡ none))
      ⊎ ((before : List TrackInfo) × (t : TrackInfo) × (left : List TrackInfo) × (queue
            ≡ before ++ t ∷ left)
          × (t.id ≡ id)
          × (contains_track_id before id ≡ false)
          × (after_track queue id ≡ some left))
unfolding after_track contains_track_id
after_track_lem [] id = inl (refl, refl)
after_track_lem (t ∷ rest) id = elim (Bool-cases (t.id == id)) [
  | inl hit ↦ inr ([], t, rest, refl, (==-iff t.id id).0 hit, refl, rw hit)
  | inr miss ↦ elim (after_track_lem rest id) [
    | inl (a, b) ↦ inl (rw (miss, a), rw (miss, b))
    | inr (before, u, left, e, i, a, b) ↦
        inr (t ∷ before, u, left, ap (◌∷◌ t) e, i, rw (miss, a), rw (miss, b))
  ]
]

-- advanceQueue leaves the queue alone if no entry has the ID, and otherwise what follows the first entry
-- that has it.
pub advance_queue_lem :
    (queue : List TrackInfo) (id : Bytes) → Advance queue id (advance_queue queue id)
unfolding advance_queue
advance_queue_lem queue id = elim (after_track_lem queue id) [
  | inl (a, b) ↦ absent a (rw (b, advance_queue))
  | inr (before, t, left, e, i, a, b) ↦ rw (b, advance_queue) (found before t e i a)
]

after_track-le :
    (queue : List TrackInfo) (id : Bytes) (left : List TrackInfo)
    → after_track queue id ≡ some left
    → (length left ≤ length queue) × (queue_wire_size left ≤ queue_wire_size queue)
unfolding after_track queue_wire_size
after_track-le [] id left h = cc
after_track-le (t ∷ rest) id left h = ground (arith, after_track-le rest id left)

pub advance_queue-IsBounded :
    (queue : List TrackInfo) (id : Bytes) → IsBounded queue → IsBounded (advance_queue queue id)
unfolding advance_queue
advance_queue-IsBounded queue id h = elim (Option-cases (after_track queue id)) [
  | inl e ↦ rw (e, advance_queue) h
  | inr (left, e) ↦
      rw (e, advance_queue)
        (record {
          size = omega (arith, after_track-le queue id left e, h.size);
          bytes = omega (arith, after_track-le queue id left e, h.bytes);
        })
]

remove_track-le :
    (queue : List TrackInfo) (id : Bytes)
    → (contains_track_id (remove_track queue id) id ≡ false)
      × (length (remove_track queue id) ≤ length queue)
      × (queue_wire_size (remove_track queue id) ≤ queue_wire_size queue)
unfolding remove_track contains_track_id queue_wire_size
remove_track-le [] id = (refl, omega arith, omega arith)
remove_track-le (t ∷ rest) id = ground (arith, remove_track-le rest id)

-- The entries with another ID, as the library's filter keeps them.
abbrev pub other_entries : Bytes → List TrackInfo → List TrackInfo
other_entries id queue = filter (λ t. not (t.id == id)) queue

other_entries-remove_track :
    (queue : List TrackInfo) (id : Bytes)
    → other_entries id (remove_track queue id) ≡ other_entries id queue
unfolding remove_track
other_entries-remove_track [] id = refl
other_entries-remove_track (t ∷ rest) id = ground (arith, other_entries-remove_track rest id)

-- After a removal no entry has the ID, every entry with another ID is still there, in its order and as often as
-- before, and the queue is neither longer nor larger on the wire.
pub remove_track_lem :
    (queue : List TrackInfo) (id : Bytes)
    → (contains_track_id (remove_track queue id) id ≡ false)
      × (other_entries id (remove_track queue id) ≡ other_entries id queue)
      × (length (remove_track queue id) ≤ length queue)
      × (queue_wire_size (remove_track queue id) ≤ queue_wire_size queue)
remove_track_lem queue id =
    let (gone, shorter, smaller) = remove_track-le queue id in
    (gone, other_entries-remove_track queue id, shorter, smaller)

-- An entry with another ID stays.
pub contains_track_id-remove_track_ne :
    (queue : List TrackInfo) (id other : Bytes)
    → id ≢ other
    → contains_track_id (remove_track queue id) other ≡ contains_track_id queue other
unfolding remove_track contains_track_id
contains_track_id-remove_track_ne [] id other h = refl
contains_track_id-remove_track_ne (t ∷ rest) id other h =
    ground
      (arith, contains_track_id-remove_track_ne rest id other h, ==-iff t.id id, ==-iff t.id other)

pub queue_wire_size-append :
    (xs ys : List TrackInfo) → queue_wire_size (xs ++ ys) ≡ queue_wire_size xs + queue_wire_size ys
unfolding queue_wire_size
queue_wire_size-append [] ys = omega arith
queue_wire_size-append (x ∷ xs) ys = omega (arith, queue_wire_size-append xs ys)

pub contains_track_id-append :
    (xs ys : List TrackInfo) (id : Bytes)
    → contains_track_id (xs ++ ys) id ≡ contains_track_id xs id || contains_track_id ys id
unfolding contains_track_id
contains_track_id-append [] ys id = refl
contains_track_id-append (x ∷ xs) ys id = ground (arith, contains_track_id-append xs ys id)
