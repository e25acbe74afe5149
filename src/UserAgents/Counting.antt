-- ===== src/UserAgents/Counting.antt =====
-- The bucket of User-Agent counts stays sound, and counts what is recorded.
use metroserver.Prelude.{
  ℕ, ◌+◌, ◌≤◌, ◌≡◌, inl, inr, sym, ap, subst, ◌∙◌, Bool, true, false, not, Option, none, some, [],
  ◌∷◌, length, ltb, leb, Bytes, Map, lookup, insert, lookup-insert, length-insert-le,
  length-insert_known, if◌then◌else◌, if_keeps, some_keeps, Bool-cases, ==-iff, All, arith,
  leb-false→lt, nat_eq, bytes_eq_instance, ◌==◌,
}
use metroserver.BigEndian.{put_uint64, uint64, length-put_uint64, uint64-put_uint64}
use metroserver.Validation.{sanitize_string}
use metroserver.Validation.Bounds.{length-sanitize_string}
use metroserver.UserAgents.{
  max_user_agent_length, max_tracked_user_agents, max_uint64, Bucket, bump, count_user_agent,
  record_user_agent,
}

-- Each entry is the eight bytes of a count, for a User-Agent of bounded length.
pub record IsCount (entry : Bytes × Bytes) : Type 0 where
  pub key_bound : length entry.0 ≤ max_user_agent_length
  pub value_length : length entry.1 ≡ 8
  pub count_bound : uint64 entry.1 ≤ max_uint64

-- The entries are counts, and the sequence bounds their number.
pub record IsSoundBucket (bucket : Bucket) : Type 0 where
  pub counts : All IsCount bucket.entries
  pub tracked : length bucket.entries ≤ bucket.sequence
  pub bounded : bucket.sequence ≤ max_tracked_user_agents

put_uint64-IsCount :
    (key : Bytes) (n : ℕ)
    → length key ≤ max_user_agent_length
    → n ≤ max_uint64
    → IsCount (key, put_uint64 n)
put_uint64-IsCount key n hk hn = record {
  key_bound = hk;
  value_length = length-put_uint64 n;
  count_bound = omega (arith, hn, uint64-put_uint64 n (omega (arith, hn)));
}

bump-le : (n : ℕ) → n ≤ max_uint64 → bump n ≤ max_uint64
unfolding bump
bump-le n h = ground (arith, h)

insert-IsCount :
    (key value : Bytes) (m : Map Bytes Bytes)
    → IsCount (key, value)
    → All IsCount m
    → All IsCount (insert key value m)
unfolding insert
insert-IsCount key value [] h hs = (h, tt)
insert-IsCount key value ((j, w) ∷ m) h hs =
    if_keeps (All IsCount) (j == key) (λ _. (h, hs.1))
      (λ _. (hs.0, insert-IsCount key value m h hs.1))

-- What a stored value is.
abbrev IsStored : Bytes → Type 0
IsStored value = (length value ≡ 8) × (uint64 value ≤ max_uint64)

lookup-IsStored :
    (key value : Bytes) (m : Map Bytes Bytes)
    → All IsCount m
    → lookup key m ≡ some value
    → IsStored value
unfolding lookup
lookup-IsStored key value [] hs = λ e. cc
lookup-IsStored key value ((j, w) ∷ m) hs =
    if_keeps (λ o. o ≡ some value → IsStored value) (j == key)
      (λ _. λ e.
        subst (λ o. elim o [ none ↦ IsStored w | some v ↦ IsStored v ]) e
          (hs.0.value_length, hs.0.count_bound))
      (λ _. λ e. lookup-IsStored key value m hs.1 e)

-- A transaction that succeeds leaves a sound bucket.
unfoldable pub Succeeds : Option Bucket → Type 0
Succeeds none = ⊥
Succeeds (some bucket) = IsSoundBucket bucket

pub eight : (n : ℕ) → n ≡ 8 → not (n == 8) ≡ false
eight n h = ground (arith, h)

count_user_agent-Succeeds :
    (key : Bytes) (bucket : Bucket)
    → length key ≤ max_user_agent_length
    → IsSoundBucket bucket
    → Succeeds (count_user_agent key bucket)
unfolding count_user_agent Succeeds
count_user_agent-Succeeds key bucket hk h =
    some_keeps Succeeds (lookup key bucket.entries)
      (λ _.
        if_keeps Succeeds (leb max_tracked_user_agents bucket.sequence) (λ _. h)
          (λ room. record {
            counts =
                insert-IsCount key (put_uint64 1) bucket.entries
                  (put_uint64-IsCount key 1 hk (omega arith)) h.counts;
            tracked = omega (arith, h.tracked, length-insert-le key (put_uint64 1) bucket.entries);
            bounded = omega (arith, leb-false→lt _ _ room);
          }))
      (λ value e.
        let stored = lookup-IsStored key value bucket.entries h.counts e in
        let next = bump (uint64 value) in
        if_keeps Succeeds (not (length value == 8))
          (λ bad. let fine = eight (length value) stored.0 in cc)
          (λ _. record {
            counts =
                insert-IsCount key (put_uint64 next) bucket.entries
                  (put_uint64-IsCount key next hk (bump-le (uint64 value) stored.1)) h.counts;
            tracked = omega (
              arith,
              h.tracked,
              length-insert_known key value (put_uint64 next) bucket.entries e,
            );
            bounded = h.bounded;
          }))

-- In a sound bucket the recording of a User-Agent succeeds and leaves a sound bucket, with at most 10000
-- User-Agents of at most 512 bytes, each with the eight bytes of a count.
pub record_user_agent-Succeeds :
    (user_agent : Bytes) (bucket : Bucket)
    → IsSoundBucket bucket
    → Succeeds (record_user_agent user_agent bucket)
unfolding record_user_agent Succeeds
record_user_agent-Succeeds user_agent bucket h =
    let key = sanitize_string user_agent max_user_agent_length in
    if_keeps Succeeds (key == []) (λ _. h)
      (λ _.
        count_user_agent-Succeeds key bucket
          (length-sanitize_string user_agent max_user_agent_length) h)

-- The count that a stored value stands for.
abbrev pub count_in : Option Bytes → Option ℕ
count_in none = none
count_in (some value) = some (uint64 value)

-- The count of a User-Agent in the bucket.
abbrev pub count_of : Bucket → Bytes → Option ℕ
count_of bucket key = count_in (lookup key bucket.entries)

count_in-insert :
    (key other value : Bytes) (m : Map Bytes Bytes)
    → count_in (lookup other (insert key value m))
      ≡ (if key == other then some (uint64 value) else count_in (lookup other m))
count_in-insert key other value m =
    ap count_in (lookup-insert key other value m)
    ∙ elim (Bool-cases (key == other)) [ inl y ↦ rw y | inr n ↦ rw n ]

-- The next count: a new User-Agent is counted from 1 unless the bucket is full.
abbrev pub next_count : Bool → Option ℕ → Option ℕ
next_count full none = if full then none else some 1
next_count full (some n) = some (if ltb n max_uint64 then n + 1 else n)

-- The counts after a User-Agent is recorded.
abbrev pub tallied : Bytes → Bucket → Bytes → Option ℕ
tallied key bucket other =
    if key == other
    then next_count (leb max_tracked_user_agents bucket.sequence) (count_of bucket other)
    else count_of bucket other

Tallies : Bytes → Bucket → Bytes → Option Bucket → Type 0
Tallies key bucket other none = ⊥
Tallies key bucket other (some after) = count_of after other ≡ tallied key bucket other

count_user_agent-Tallies :
    (key other : Bytes) (bucket : Bucket)
    → IsSoundBucket bucket
    → Tallies key bucket other (count_user_agent key bucket)
unfolding count_user_agent Tallies bump
count_user_agent-Tallies key other bucket h =
    some_keeps (Tallies key bucket other) (lookup key bucket.entries)
      (λ e.
        if_keeps (Tallies key bucket other) (leb max_tracked_user_agents bucket.sequence)
          (λ full. elim (Bool-cases (key == other)) [
            | inl y ↦ rw (y, at_other key other y e, full)
            | inr n ↦ rw n
          ])
          (λ room. elim (Bool-cases (key == other)) [
            | inl y ↦
                count_in-insert key other (put_uint64 1) bucket.entries
                ∙ rw (y, at_other key other y e, room, uint64-put_uint64 1 (omega arith))
            | inr n ↦ count_in-insert key other (put_uint64 1) bucket.entries ∙ rw n
          ]))
      (λ value e.
        let stored = lookup-IsStored key value bucket.entries h.counts e in
        if_keeps (Tallies key bucket other) (not (length value == 8))
          (λ bad. let fine = eight (length value) stored.0 in cc)
          (λ _. elim (Bool-cases (key == other)) [
            | inl y ↦
                count_in-insert key other (put_uint64 (bump (uint64 value))) bucket.entries
                ∙ rw (
                  y,
                  at_other key other y e,
                  uint64-put_uint64 (bump (uint64 value))
                      (omega (arith, bump-le (uint64 value) stored.1)),
                  bump,
                )
            | inr n ↦
                count_in-insert key other (put_uint64 (bump (uint64 value))) bucket.entries ∙ rw n
          ]))
  where
    at_other :
        (key other : Bytes) {v : Option Bytes}
        → key == other ≡ true
        → lookup key bucket.entries ≡ v
        → count_of bucket other ≡ count_in v
    at_other key other {v} y e =
        ap count_in (subst (λ k. lookup k bucket.entries ≡ v) ((==-iff key other).0 y) e)

-- Where a recording in a sound bucket succeeds, what it does to every count: a User-Agent that is not empty after
-- sanitizing and that has a count below 18446744073709551615 gets one more, a new one gets the count 1 if fewer than
-- 10000 have been tracked, and no other count changes. Nothing is added to a count that has reached that limit, for a
-- new User-Agent once 10000 have been tracked, or for one that is empty.
pub record_user_agent-Tallies :
    (user_agent other : Bytes) (bucket after : Bucket)
    → IsSoundBucket bucket
    → record_user_agent user_agent bucket ≡ some after
    → count_of after other ≡ (
        if sanitize_string user_agent max_user_agent_length == []
        then count_of bucket other
        else tallied (sanitize_string user_agent max_user_agent_length) bucket other)
unfolding record_user_agent Tallies
record_user_agent-Tallies user_agent other bucket after h =
    let key = sanitize_string user_agent max_user_agent_length in
    elim (Bool-cases (key == [])) [
      | inl y ↦ λ e.
          let same : some bucket ≡ some after = rw y at e in
          rw (
            y,
            ap (λ o. elim o as (λ _. Option ℕ) [ none ↦ none | some b ↦ count_of b other ])
                (sym same),
          )
      | inr n ↦ λ e.
          let same : count_user_agent key bucket ≡ some after = rw n at e in
          rw n (subst (Tallies key bucket other) same (count_user_agent-Tallies key other bucket h))
    ]
