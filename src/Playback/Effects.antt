-- ===== src/Playback/Effects.antt =====
-- What the verdicts of the switch say: refusals, and the effect of each action.
use metroserver.Prelude.{
  ℕ, ◌<◌, ◌≡◌, refl, true, Option, none, some, arith, some_keeps, ℤ, pos, negsuc, ◌+ℤ◌, ◌-ℤ◌, ◌≤ℤ◌,
  +ℤ_parts, -ℤ_parts, int64_max, IsInt64, wrap64_self, bytes, nat_eq, bytes_eq_instance,
}
use metroserver.Limits.{max_queue_bytes}
use metroserver.Protocol.{
  TrackInfo, RoomState, PlaybackActionPayload, Action, play, pause, seek, skip_next, skip_prev,
  change_track, queue_add, queue_remove, queue_clear, sync_queue, set_volume, update_track,
}
use metroserver.Validation.{sanitize_track_info}
use metroserver.Queue.{sanitize_queue, queue_wire_size}
use metroserver.Playback.{
  transit_time, Verdict, applied, refused, silent, compensate_action_transit, shift_position,
  apply_play, apply_pause, apply_seek, next_queue, retitle, start_track, apply_change_track,
  enqueue_track, apply_queue_add, apply_queue_remove, apply_sync_queue, apply_update_track,
  apply_set_volume, apply_action, replaces_queue, max_action_transit_compensation,
}

-- A refused action keeps every field of the state but the queue title.
abbrev pub KeepsState : RoomState → Verdict → Type 0
KeepsState s (applied s' p) = Unit
KeepsState s (refused s' e) = record s' { queue_title = s.queue_title } ≡ s
KeepsState s silent = Unit

module _ (s : RoomState) (p : PlaybackActionPayload) (now_ms : ℤ) (rtt_ms : ℕ) where
  play_keeps : KeepsState s (apply_play s p now_ms rtt_ms)
  unfolding apply_play
  play_keeps = ground arith

  pause_keeps : KeepsState s (apply_pause s p now_ms)
  unfolding apply_pause
  pause_keeps = ground arith

  seek_keeps : KeepsState s (apply_seek s p now_ms rtt_ms)
  unfolding apply_seek
  seek_keeps = ground arith

  start_keeps : (t : TrackInfo) → KeepsState s (start_track s p t now_ms)
  unfolding start_track retitle
  start_keeps t = ground arith

  change_track_keeps : KeepsState s (apply_change_track s p now_ms)
  unfolding apply_change_track
  change_track_keeps =
      some_keeps (KeepsState s) p.track_info (λ _. refl)
        λ raw _.
          some_keeps (KeepsState s) (sanitize_track_info raw) (λ _. refl) (λ t _. start_keeps t)

  enqueue_keeps : (t : TrackInfo) → KeepsState s (enqueue_track s p t)
  unfolding enqueue_track
  enqueue_keeps t = ground arith

  queue_add_keeps : KeepsState s (apply_queue_add s p)
  unfolding apply_queue_add
  queue_add_keeps =
      some_keeps (KeepsState s) p.track_info (λ _. refl)
        λ raw _.
          some_keeps (KeepsState s) (sanitize_track_info raw) (λ _. refl) (λ t _. enqueue_keeps t)

  queue_remove_keeps : KeepsState s (apply_queue_remove s p)
  unfolding apply_queue_remove
  queue_remove_keeps = ground arith

  sync_queue_keeps : KeepsState s (apply_sync_queue s p)
  unfolding apply_sync_queue
  sync_queue_keeps = ground arith

  update_track_keeps : KeepsState s (apply_update_track s p now_ms)
  unfolding apply_update_track
  update_track_keeps = ground arith

  set_volume_keeps : KeepsState s (apply_set_volume s p)
  unfolding apply_set_volume
  set_volume_keeps = ground arith

-- Whatever the action, a refusal leaves the state as it was, but for the queue title.
pub apply_action_refused :
    (a : Option Action) (s : RoomState) (p : PlaybackActionPayload) (now_ms : ℤ) (rtt_ms : ℕ)
    → KeepsState s (apply_action a s p now_ms rtt_ms)
unfolding apply_action
apply_action_refused none s p now_ms rtt_ms = refl
apply_action_refused (some play) s p now_ms rtt_ms = play_keeps s p now_ms rtt_ms
apply_action_refused (some pause) s p now_ms rtt_ms = pause_keeps s p now_ms rtt_ms
apply_action_refused (some seek) s p now_ms rtt_ms = seek_keeps s p now_ms rtt_ms
apply_action_refused (some change_track) s p now_ms rtt_ms = change_track_keeps s p now_ms rtt_ms
apply_action_refused (some skip_next) s p now_ms rtt_ms = tt
apply_action_refused (some skip_prev) s p now_ms rtt_ms = tt
apply_action_refused (some queue_add) s p now_ms rtt_ms = queue_add_keeps s p now_ms rtt_ms
apply_action_refused (some queue_remove) s p now_ms rtt_ms = queue_remove_keeps s p now_ms rtt_ms
apply_action_refused (some queue_clear) s p now_ms rtt_ms = tt
apply_action_refused (some sync_queue) s p now_ms rtt_ms = sync_queue_keeps s p now_ms rtt_ms
apply_action_refused (some update_track) s p now_ms rtt_ms = update_track_keeps s p now_ms rtt_ms
apply_action_refused (some set_volume) s p now_ms rtt_ms = set_volume_keeps s p now_ms rtt_ms

-- The queue title is the exception: a change_track whose queue is too large is refused, and yet the
-- room takes the new title, whenever the payload replaces the queue.
pub change_track_refused_retitles :
    (s : RoomState) (p : PlaybackActionPayload) (now_ms : ℤ) (raw t : TrackInfo)
    → p.track_info ≡ some raw
    → sanitize_track_info raw ≡ some t
    → replaces_queue p ≡ true
    → max_queue_bytes < queue_wire_size (sanitize_queue p.queue)
    → apply_change_track s p now_ms
      ≡ refused
          (record s { queue_title = p.queue_title })
          (record { code = bytes "queue_too_large"; message = bytes "Queue is too large" })
unfolding apply_change_track start_track next_queue retitle
change_track_refused_retitles s p now_ms raw t e f h big = ground arith

shift_position_bounds :
    (position elapsed : ℤ)
    → IsInt64 position
    → (position ≤ℤ shift_position position elapsed)
      × (shift_position position elapsed ≤ℤ position +ℤ max_action_transit_compensation)
unfolding shift_position
shift_position_bounds position (negsuc n) h =
    ground (arith, +ℤ_parts position max_action_transit_compensation)
shift_position_bounds position (pos n) h = ground (
  arith,
  +ℤ_parts position max_action_transit_compensation,
  +ℤ_parts position (pos n),
  -ℤ_parts int64_max (pos n),
  wrap64_self (int64_max -ℤ pos n),
  wrap64_self (position +ℤ pos n),
)

-- The compensation for the transit of an action moves a position forward by at most 30 seconds.
pub compensate_action_transit_bounds :
    (position captured now_ms : ℤ) (rtt_ms : ℕ)
    → IsInt64 position
    → (position ≤ℤ compensate_action_transit position captured now_ms rtt_ms)
      × (compensate_action_transit position captured now_ms rtt_ms
          ≤ℤ position +ℤ max_action_transit_compensation)
unfolding compensate_action_transit
compensate_action_transit_bounds position captured now_ms rtt_ms h =
    shift_position_bounds position (transit_time captured now_ms rtt_ms) h
