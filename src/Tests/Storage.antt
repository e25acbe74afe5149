-- ===== src/Tests/Storage.antt =====
-- The theorems on what internal/server/useragents.go and persistence.go store, at concrete inputs.
use metroserver.Prelude.{
  ℕ, ◌≡◌, ◌≢◌, refl, subst, ◌⊎◌, inl, true, false, none, some, [], ◌∷◌, ◌++◌, pos, Bytes, bytes,
  bytes_beq, Map, lookup, insert, if◌then◌else◌, if_keeps, arith, nat_eq, bytes_eq_instance, ◌==◌,
}
use metroserver.BigEndian.{put_uint64, uint64, uint64-put_uint64, length-put_uint64}
use metroserver.Utf8.{valid_string, trim_space, keep_runes}
use metroserver.Validation.{sanitize_string, limit_length}
use metroserver.UserAgents.{
  Bucket, record_user_agent, user_agent_counts, counted, user_agents_handler, max_user_agent_length,
}
use metroserver.UserAgents.Counting.{
  IsSoundBucket, Succeeds, count_of, tallied, record_user_agent-Succeeds, record_user_agent-Tallies,
}
use metroserver.UserAgents.Access.{user_agents_handler-counted, user_agents_handler-served}
use metroserver.Flush.{Store, flush_state}
use metroserver.Flush.Refinement.{IsMap, Flushed, flush_state-Flushed}
use metroserver.World.{Room}
use metroserver.Connections.{new_server, unallocated_room}
use metroserver.Snapshot.{insert_by, sort_by, collect_members, persist_room}
use metroserver.Restore.{restore_room}
use metroserver.Restore.Seats.{Leads}
use metroserver.Restore.Rejoining.{IsBack}
use metroserver.Restore.RoundTrip.{persist_room-restore_room}
use metroserver.Tests.{idle_state}

abbrev curl_bucket : Bucket
curl_bucket = record { entries = (bytes "curl", put_uint64 41) ∷ []; sequence = 1 }

curl_bucket-IsSoundBucket : IsSoundBucket curl_bucket
unfolding bytes
curl_bucket-IsSoundBucket = record {
  counts = (
    record {
      key_bound = omega arith;
      value_length = length-put_uint64 41;
      count_bound = omega (arith, uint64-put_uint64 41 (omega arith));
    },
    tt,
  );
  tracked = omega arith;
  bounded = omega arith;
}

record_user_agent-Succeeds_example : Succeeds (record_user_agent (bytes " wget\n") curl_bucket)
record_user_agent-Succeeds_example =
    record_user_agent-Succeeds (bytes " wget\n") curl_bucket curl_bucket-IsSoundBucket

record_user_agent-Tallies_example :
    count_of (record { entries = (bytes "curl", put_uint64 42) ∷ []; sequence = 1 }) (bytes "curl")
    ≡ (if sanitize_string (bytes " curl ") max_user_agent_length == []
        then count_of curl_bucket (bytes "curl")
        else tallied
            (sanitize_string (bytes " curl ") max_user_agent_length)
            curl_bucket
            (bytes "curl"))
unfolding record_user_agent sanitize_string limit_length trim_space keep_runes valid_string lookup
    insert uint64 put_uint64 bytes_beq bytes
record_user_agent-Tallies_example =
    record_user_agent-Tallies (bytes " curl ") (bytes "curl") curl_bucket
      (record { entries = (bytes "curl", put_uint64 42) ∷ []; sequence = 1 })
      curl_bucket-IsSoundBucket refl

-- A checksum in place of SHA-256.
abbrev first_byte : Bytes → Bytes
first_byte [] = []
first_byte (b ∷ bs) = b ∷ []

user_agents_handler-counted_example :
    (bytes "GET" ≡ bytes "GET")
    × (bytes "key" ≢ [])
    × ((provided : Bytes) × ((bytes "Bearer key" ≡ bytes "Bearer " ++ provided)
          ⊎ (bytes "Bearer key" ≡ provided))
        × (first_byte (bytes "key") ≡ first_byte provided))
    × (user_agent_counts none ≡ some [])
unfolding user_agents_handler bytes_beq bytes
user_agents_handler-counted_example =
    user_agents_handler-counted first_byte (bytes "key") none (bytes "GET") (bytes "Bearer key") []
      refl

key_is_text : bytes "key" ≢ []
unfolding bytes
key_is_text = λ e. cc

user_agents_handler-served_example :
    (counts : Map Bytes ℕ) × (user_agents_handler first_byte
        (bytes "key")
        (some curl_bucket)
        (bytes "GET")
        (bytes "Bearer " ++ bytes "key")
      ≡ counted counts)
    × ((key : Bytes) → lookup key counts ≡ count_of curl_bucket key)
user_agents_handler-served_example =
    user_agents_handler-served first_byte (bytes "key") curl_bucket key_is_text
      curl_bucket-IsSoundBucket

-- One room has changed, one is new, and one is gone.
abbrev two_rooms : Map Bytes Bytes
two_rooms = (bytes "AAAA", 1 ∷ 2 ∷ []) ∷ (bytes "BBBB", 3 ∷ []) ∷ []

abbrev old_rooms : Map Bytes Bytes
old_rooms = (bytes "AAAA", 1 ∷ []) ∷ (bytes "CCCC", 9 ∷ []) ∷ []

abbrev old_store : Store
old_store = record { rooms = old_rooms; persisted = old_rooms; flushed_at = none; last_flush = 0 }

two_rooms-IsMap : (found : Map Bytes Bytes) → some two_rooms ≡ some found → IsMap found
unfolding lookup bytes_beq bytes
two_rooms-IsMap found e =
    subst (λ o. elim o as (λ _. Type 0) [ none ↦ Unit | some m ↦ IsMap m ]) e (refl, (refl, tt))

two_rooms-data :
    (found : Map Bytes Bytes) (code : Bytes)
    → some two_rooms ≡ some found
    → lookup code found ≢ some []
unfolding lookup
two_rooms-data found code e =
    subst (λ o. elim o as (λ _. Type 0) [ none ↦ Unit | some m ↦ lookup code m ≢ some [] ]) e
      (if_keeps (λ o. o ≢ some []) (bytes "AAAA" == code) (λ _. λ h. cc)
        (λ _. if_keeps (λ o. o ≢ some []) (bytes "BBBB" == code) (λ _. λ h. cc) (λ _. λ h. cc)))

flush_state-Flushed_example :
    Flushed
      (some two_rooms)
      true
      old_store
      (flush_state false (some two_rooms) 5_000_000 5 true old_store)
flush_state-Flushed_example =
    flush_state-Flushed false (some two_rooms) 5_000_000 5 true old_store two_rooms-IsMap
      two_rooms-data (λ code. refl)

abbrev small_room : Room
small_room = record unallocated_room {
  code = bytes "ROOM";
  state = idle_state;
  clients = (bytes "h", 7) ∷ [];
}

abbrev one_token : ℕ → Bytes
one_token c = bytes "token"

one_token_is_text : (c : ℕ) → one_token c ≢ []
unfolding bytes
one_token_is_text c = λ e. cc

persist_room-restore_room_example :
    Leads
      (restore_room 100 20
        (pos 60000)
        (persist_room one_token (new_server 0) small_room []).1
        (new_server 0))
      ((persist_room one_token (new_server 0) small_room []).0.client_at 7).session_token
      (record {
        user_id = bytes "h";
        username = [];
        room_code = bytes "ROOM";
        is_host = true;
        disconnect_at = 120;
        claimed = false;
      })
    × ((r : ℕ) × IsBack
          (restore_room 100 20
            (pos 60000)
            (persist_room one_token (new_server 0) small_room []).1
            (new_server 0))
          small_room
          (bytes "h")
          r)
unfolding persist_room collect_members sort_by insert_by unallocated_room new_server bytes_beq bytes
persist_room-restore_room_example =
    persist_room-restore_room one_token (new_server 0) (new_server 0) small_room [] (bytes "h") 7
      100 20 (pos 60000) one_token_is_text (inl refl) (tt, tt)
