-- ===== src/Rooms/Rates.antt =====
-- allowRoomCreate of internal/server/server.go: how many rooms a source may create.
-- The window of the source is not over, and what it counts.
use metroserver.Prelude.{
  ℕ, ◌+◌, ◌≤◌, ◌<◌, ◌≡◌, ◌⊎◌, inl, inr, true, false, not, none, some, arith, leb, if◌then◌else◌,
  Bool-cases, Option-cases, filter, Bytes, nat_eq, bytes_eq_instance, ==-refl, Map, lookup,
  lookup-insert,
}
use metroserver.Limits.{max_room_creates_per_source, room_create_window}
use metroserver.World.{Env, SourceWindow}
use metroserver.Rooms.{is_old_window, allow_room_create}

abbrev pub window_count : Env → Map Bytes SourceWindow → Bytes → ℕ
window_count env creates source = elim (lookup source creates) [
  | none ↦ 0
  | some w ↦ if is_old_window env w then 0 else w.count
]

-- A request is allowed exactly if the source has created fewer than ten rooms in its window; an allowed one
-- counts, in a window that is not over, and a refused one changes nothing.
pub allow_room_create_lem :
    (env : Env) (creates : Map Bytes SourceWindow) (source : Bytes)
    → ((window_count env creates source < max_room_creates_per_source)
        × ((allow_room_create env creates source).0 ≡ true)
        × (window_count env (allow_room_create env creates source).1 source
            ≡ window_count env creates source + 1))
      ⊎ ((max_room_creates_per_source ≤ window_count env creates source)
          × (allow_room_create env creates source ≡ (false, creates)))
unfolding allow_room_create is_old_window
allow_room_create_lem env creates source =
    let fresh : SourceWindow = record { start = env.now; count = 1 } in
    let opened =
      lookup-insert source source fresh (filter (λ x. not (is_old_window env x.1)) creates) in
    elim (Option-cases (lookup source creates)) [
      | inl e ↦ inl (ground arith, ground arith, ground (arith, opened, ==-refl source))
      | inr (w, e) ↦ elim (Bool-cases (leb (w.start + room_create_window) env.now)) [
        | inl old ↦ inl (ground arith, ground arith, ground (arith, opened, ==-refl source))
        | inr new ↦ elim (Bool-cases (leb max_room_creates_per_source w.count)) [
          | inl full ↦ inr (ground arith, ground arith)
          | inr room ↦
              let counted =
                lookup-insert source source (record w { count = w.count + 1 }) creates in
              inl (ground arith, ground arith, ground (arith, counted, ==-refl source))
        ]
      ]
    ]
