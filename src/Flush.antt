-- ===== src/Flush.antt =====
-- flushState of internal/server/persistence.go: the records of the rooms are compared with those that are in
-- the database, and the differences are written in one transaction.
pub mod Refinement
use metroserver.Prelude.{
  ℕ, ◌*◌, ◌-◌, Bool, true, false, not, ◌&&◌, Option, none, some, List, [], ◌∷◌, filter, ltb, Bytes,
  Map, lookup, insert, delete, if◌then◌else◌, nat_eq, bytes_eq_instance, ◌==◌,
}
use metroserver.Limits.{second}
use metroserver.BigEndian.{put_uint64}

-- flushHeartbeat
abbrev pub flush_heartbeat : ℕ
flush_heartbeat = 30 * second

-- The buckets of the rooms and of the time of the last flush, and what Server remembers of them.
pub record Store : Type 0 where
  pub rooms : Map Bytes Bytes
  pub flushed_at : Option Bytes
  pub persisted : Map Bytes Bytes
  pub last_flush : ℕ

-- A missing key of a map of byte slices is nil, of no bytes.
abbrev pub data_at : Map Bytes Bytes → Bytes → Bytes
data_at m code = elim (lookup code m) [ none ↦ [] | some held ↦ held ]

-- The records that differ from what was persisted.
abbrev pub is_changed : Map Bytes Bytes → Bytes × Bytes → Bool
is_changed persisted entry = not (data_at persisted entry.0 == entry.1)

abbrev pub changed_records : Map Bytes Bytes → Map Bytes Bytes → Map Bytes Bytes
changed_records persisted records = filter (is_changed persisted) records

abbrev pub is_missing : Map Bytes Bytes → Bytes → Bool
is_missing records code = elim (lookup code records) [ none ↦ true | some held ↦ false ]

-- The codes that were persisted and have no record any more.
unfoldable pub removed_codes : Map Bytes Bytes → Map Bytes Bytes → List Bytes
removed_codes [] records = []
removed_codes ((code, held) ∷ rest) records =
    let others = removed_codes rest records in
    if is_missing records code then code ∷ others else others

-- The loops that put and delete; the order of a range loop over a map is arbitrary.
unfoldable pub put_all : Map Bytes Bytes → Map Bytes Bytes → Map Bytes Bytes
put_all [] bucket = bucket
put_all ((code, held) ∷ rest) bucket = insert code held (put_all rest bucket)

unfoldable pub delete_all : List Bytes → Map Bytes Bytes → Map Bytes Bytes
delete_all [] bucket = bucket
delete_all (code ∷ rest) bucket = delete code (delete_all rest bucket)

-- A bucket or a map after the differences are applied.
unfoldable pub apply_changes : Map Bytes Bytes → Map Bytes Bytes → Map Bytes Bytes → Map Bytes Bytes
unfolding removed_codes put_all delete_all
apply_changes persisted records bucket =
    delete_all (removed_codes persisted records)
      (put_all (changed_records persisted records) bucket)

abbrev pub is_nil {ℓ} : {A : Type ℓ} → List A → Bool
is_nil [] = true
is_nil (x ∷ xs) = false

-- Nothing differs, and the last flush is not long ago.
unfoldable pub is_idle : Store → Map Bytes Bytes → ℕ → Bool
unfolding removed_codes
is_idle store records now =
    is_nil (changed_records store.persisted records)
    && (is_nil (removed_codes store.persisted records)
        && ltb (now - store.last_flush) flush_heartbeat)

-- What flushState leaves, and whether it succeeds: for the encoded records (none if a record does not
-- encode), the time in nanoseconds, the time in milliseconds, and whether the transaction commits.
unfoldable pub flush_state : Bool → Option (Map Bytes Bytes) → ℕ → ℕ → Bool → Store → Bool × Store
unfolding is_idle apply_changes
flush_state force none now now_ms commits store = (false, store)
flush_state force (some records) now now_ms commits store =
    if not force && is_idle store records now
    then (true, store)
    else if not commits
    then (false, store)
    else (
      true,
      record {
        rooms = apply_changes store.persisted records store.rooms;
        flushed_at = some (put_uint64 now_ms);
        persisted = apply_changes store.persisted records store.persisted;
        last_flush = now;
      },
    )
