-- ===== src/Validation/Position.antt =====
-- The projected playback position.
use metroserver.Prelude.{
  ◌⊎◌, inl, inr, true, ◌≡◌, inl, inr, ◌&&◌, arith, if◌then◌else◌, Bool-cases, ℤ, pos, ◌+ℤ◌, ◌-ℤ◌,
  ◌≤ℤ◌, ◌<ℤ◌, ltb_ℤ, max_ℤ, +ℤ_parts, -ℤ_parts, IsInt64, wrap64, wrap64_self, nat_eq,
  bytes_eq_instance,
}
use metroserver.Limits.{max_track_duration}
use metroserver.Protocol.{RoomState}
use metroserver.Validation.{advance_position, live_playback_position}

-- No reading of the server clock up to this many milliseconds can overflow a position.
abbrev pub max_clock : ℤ
max_clock = pos 4_611_686_018_427_387_904

elapsed_lem :
    (now last : ℤ)
    → pos 0 <ℤ last
    → IsInt64 last
    → pos 0 ≤ℤ now
    → now ≤ℤ max_clock
    → wrap64 (now -ℤ last) ≡ now -ℤ last
elapsed_lem now last h i j k =
    wrap64_self _ (omega (arith, -ℤ_parts now last), omega (arith, -ℤ_parts now last))

moved_lem :
    (p now last : ℤ)
    → pos 0 ≤ℤ p
    → p ≤ℤ pos max_track_duration
    → pos 0 <ℤ last
    → pos 0 <ℤ now -ℤ last
    → now ≤ℤ max_clock
    → wrap64 (p +ℤ (now -ℤ last)) ≡ p +ℤ (now -ℤ last)
moved_lem p now last h i j k l = wrap64_self _ (
  omega (arith, -ℤ_parts now last, +ℤ_parts p (now -ℤ last)),
  omega (arith, -ℤ_parts now last, +ℤ_parts p (now -ℤ last)),
)

-- What live_playback_position adds to a position between 0 and the maximum.
pub advance_position_lem :
    (state : RoomState) (now p : ℤ)
    → pos 0 ≤ℤ p
    → p ≤ℤ pos max_track_duration
    → IsInt64 state.last_update
    → pos 0 ≤ℤ now
    → now ≤ℤ max_clock
    → advance_position state now p ≡ (
        if state.is_playing && ltb_ℤ (pos 0) state.last_update && ltb_ℤ state.last_update now
        then p +ℤ (now -ℤ state.last_update)
        else p)
unfolding advance_position
advance_position_lem state now p h i j k l = elim (Bool-cases (ltb_ℤ (pos 0) state.last_update)) [
  | inr old ↦ rw old (ground arith)
  | inl set ↦ rw (elapsed_lem now state.last_update (ground arith) j k l) (
      ground (
        arith,
        moved_lem p now state.last_update h i (ground arith),
        -ℤ_parts now state.last_update,
      ))
]

nonneg_max : (p : ℤ) → pos 0 ≤ℤ p → max_ℤ p (pos 0) ≡ p
nonneg_max p h = ground arith

-- The projected position stays in its range, never lies before the stored one, and stands still
-- while playback is paused.
pub live_playback_position_lem :
    (state : RoomState) (now : ℤ)
    → pos 0 ≤ℤ state.position
    → state.position ≤ℤ pos max_track_duration
    → IsInt64 state.last_update
    → pos 0 ≤ℤ now
    → now ≤ℤ max_clock
    → (state.position ≤ℤ live_playback_position state now)
      × (live_playback_position state now ≤ℤ pos max_track_duration)
      × ((state.is_playing ≡ true) ⊎ (live_playback_position state now ≡ state.position))
unfolding live_playback_position
live_playback_position_lem state now h i j k l =
    rw (nonneg_max state.position h, advance_position_lem state now state.position h i j k l)
      (ground
        (arith, +ℤ_parts state.position (now -ℤ state.last_update), -ℤ_parts now state.last_update))
