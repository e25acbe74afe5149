-- ===== src/Loading.antt =====
-- LoadState of internal/server/persistence.go: the records that the server starts with, those of the database or of an older
-- format, the snapshot of the whole server.
use metroserver.Prelude.{
  ℕ, ◌-◌, ◌*◌, Option, none, some, List, [], ◌∷◌, filter, length, ltb, ℤ, Bytes, Map, if◌then◌else◌,
  nat_eq, bytes_eq_instance, ◌==◌,
}
use metroserver.BigEndian.{uint64}
use metroserver.World.{Server}
use metroserver.Snapshot.{PersistentSession, PersistentRoom, RoomRecord}
use metroserver.Restore.{restore_rooms}

-- The records of the database, for json.Unmarshal; none is an error.
unfoldable pub decode_records :
    (Bytes → Option RoomRecord) → Map Bytes Bytes → Option (List RoomRecord)
decode_records decode [] = some []
decode_records decode ((code, wire) ∷ rest) =
    let others = decode_records decode rest in
    elim (decode wire) [
      | none ↦ none
      | some stored ↦ elim others [ none ↦ none | some records ↦ some (stored ∷ records) ]
    ]

-- The time of the last flush, in nanoseconds; a stamp of another length than eight bytes is none.
unfoldable pub stopped_time : Option Bytes → Option ℕ
stopped_time none = none
stopped_time (some stamp) = if length stamp == 8 then some (uint64 stamp * 1_000_000) else none

-- PersistentState. The time 0 is Go's zero time.
pub record PersistentState : Type 0 where
  pub server_shutdown_time : ℕ
  pub rooms : List PersistentRoom
  pub sessions : List PersistentSession

-- Each room with the sessions that name it.
unfoldable pub legacy_records : List PersistentSession → List PersistentRoom → List RoomRecord
legacy_records sessions [] = []
legacy_records sessions (room ∷ rest) =
    record { room = room; sessions = filter (λ p. p.room_code == room.code) sessions }
    ∷ legacy_records sessions rest

-- What stands under the name of the legacy file.
pub data StateFile : Type 0 where
  no_file unreadable_file : StateFile
  file_content : Bytes → StateFile

-- What readLegacyState returns.
pub data Legacy : Type 0 where
  no_legacy legacy_error : Legacy
  legacy_snapshot : List RoomRecord → ℕ → Legacy

-- MaxStateFileSize
abbrev pub max_state_file_size : ℕ
max_state_file_size = 50 * 1024 * 1024

unfoldable pub parse_legacy : (Bytes → Option PersistentState) → Bytes → Legacy
unfolding legacy_records
parse_legacy decode content = elim (decode content) [
  | none ↦ legacy_error
  | some state ↦
      legacy_snapshot (legacy_records state.sessions state.rooms) state.server_shutdown_time
]

-- readLegacyState, for what the database holds of the older format (none if it cannot be read) and the file.
unfoldable pub read_legacy_state :
    (Bytes → Option PersistentState) → Option Bytes → StateFile → Legacy
unfolding parse_legacy
read_legacy_state decode none file = legacy_error
read_legacy_state decode (some (b ∷ bs)) file = parse_legacy decode (b ∷ bs)
read_legacy_state decode (some []) no_file = no_legacy
read_legacy_state decode (some []) unreadable_file = legacy_error
read_legacy_state decode (some []) (file_content content) =
    if ltb max_state_file_size (length content) then legacy_error else parse_legacy decode content

-- The records and the time to start from: the older format counts if the database has no records.
unfoldable pub start_from :
    List RoomRecord → Option ℕ → Legacy → Option (List RoomRecord × Option ℕ)
start_from records flushed_at legacy_error = none
start_from records flushed_at no_legacy = some (records, flushed_at)
start_from (r ∷ rs) flushed_at (legacy_snapshot old t) = some (r ∷ rs, flushed_at)
start_from [] flushed_at (legacy_snapshot old t) = some (old, if t == 0 then none else some t)

-- LoadState up to the restored rooms; none is an error. The clock may stand before the time of the last flush: then no
-- time was spent offline.
unfoldable pub load_state :
    (Bytes → Option RoomRecord)
    → Map Bytes Bytes
    → Option Bytes
    → Legacy
    → ℕ
    → ℤ
    → Server
    → Option Server
unfolding decode_records stopped_time start_from
load_state decode raw flushed_at legacy now now_ms s = elim (decode_records decode raw) [
  | none ↦ none
  | some found ↦ elim (start_from found (stopped_time flushed_at) legacy) [
    | none ↦ none
    | some (records, flushed) ↦
        let stopped_at : ℕ = elim flushed [ none ↦ now | some t ↦ t ] in
        some (restore_rooms stopped_at (now - stopped_at) now_ms records s)
  ]
]
