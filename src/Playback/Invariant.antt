-- ===== src/Playback/Invariant.antt =====
-- What every playback state keeps through every action: the limits of the queue and the range of the
-- position.
use metroserver.Prelude.{
  ℕ, ◌≤◌, Option, none, some, [], ◌∷◌, arith, some_keeps, length, length-append, ℤ, pos, ◌≤ℤ◌,
  nat_eq, bytes_eq_instance,
}
use metroserver.Limits.{max_queue_size, max_queue_bytes, max_track_duration}
use metroserver.Protocol.{
  TrackInfo, RoomState, PlaybackActionPayload, Action, play, pause, seek, skip_next, skip_prev,
  change_track, queue_add, queue_remove, queue_clear, sync_queue, set_volume, update_track,
}
use metroserver.Validation.{sanitize_track_info}
use metroserver.Queue.{queue_wire_size}
use metroserver.Queue.Laws.{
  length-sanitize_queue, advance_queue-IsBounded, remove_track_lem, queue_wire_size-append,
}
use metroserver.Playback.{
  Verdict, applied, refused, silent, clamp_playback_position, apply_play, apply_pause, apply_seek,
  next_queue, retitle, start_track, apply_change_track, enqueue_track, apply_queue_add,
  apply_queue_remove, apply_sync_queue, apply_update_track, apply_set_volume, apply_action,
}

pub record IsSound (s : RoomState) : Type 0 where
  pub size : length s.queue ≤ max_queue_size
  pub bytes : queue_wire_size s.queue ≤ max_queue_bytes
  pub position_nonneg : pos 0 ≤ℤ s.position
  pub position_bound : s.position ≤ℤ pos max_track_duration

-- A property of the state that a verdict leaves.
abbrev pub Leaves {ℓ} : (RoomState → Type ℓ) → Verdict → Type ℓ
Leaves P (applied s p) = P s
Leaves P (refused s e) = P s
Leaves P silent = Unit

pub clamp_playback_position_bounds :
    (position : ℤ)
    → (pos 0 ≤ℤ clamp_playback_position position)
      × (clamp_playback_position position ≤ℤ pos max_track_duration)
unfolding clamp_playback_position
clamp_playback_position_bounds position = ground arith

module _ (s : RoomState) (p : PlaybackActionPayload) (now_ms : ℤ) (rtt_ms : ℕ) (h : IsSound s) where
  apply_play-IsSound : Leaves IsSound (apply_play s p now_ms rtt_ms)
  unfolding apply_play
  apply_play-IsSound = ground arith

  apply_pause-IsSound : Leaves IsSound (apply_pause s p now_ms)
  unfolding apply_pause
  apply_pause-IsSound = ground arith

  apply_seek-IsSound : Leaves IsSound (apply_seek s p now_ms rtt_ms)
  unfolding apply_seek
  apply_seek-IsSound = ground arith

  next_queue-size : (t : TrackInfo) → length (next_queue s p t) ≤ max_queue_size
  unfolding next_queue
  next_queue-size t = ground (
    arith,
    length-sanitize_queue p.queue,
    (advance_queue-IsBounded s.queue t.id (record { size = h.size; bytes = h.bytes })).size,
  )

  start_track-IsSound : (t : TrackInfo) → Leaves IsSound (start_track s p t now_ms)
  unfolding start_track retitle
  start_track-IsSound t = ground (arith, next_queue-size t)

  apply_change_track-IsSound : Leaves IsSound (apply_change_track s p now_ms)
  unfolding apply_change_track
  apply_change_track-IsSound =
      some_keeps (Leaves IsSound) p.track_info (λ _. h)
        λ raw _.
          some_keeps (Leaves IsSound) (sanitize_track_info raw) (λ _. h)
            (λ t _. start_track-IsSound t)

  enqueue_track-IsSound : (t : TrackInfo) → Leaves IsSound (enqueue_track s p t)
  unfolding enqueue_track
  enqueue_track-IsSound t =
      ground (arith, length-append s.queue (t ∷ []), queue_wire_size-append s.queue (t ∷ []))

  apply_queue_add-IsSound : Leaves IsSound (apply_queue_add s p)
  unfolding apply_queue_add
  apply_queue_add-IsSound =
      some_keeps (Leaves IsSound) p.track_info (λ _. h)
        λ raw _.
          some_keeps (Leaves IsSound) (sanitize_track_info raw) (λ _. h)
            (λ t _. enqueue_track-IsSound t)

  apply_queue_remove-IsSound : Leaves IsSound (apply_queue_remove s p)
  unfolding apply_queue_remove
  apply_queue_remove-IsSound = ground (arith, remove_track_lem s.queue p.track_id)

  queue_clear-IsSound : IsSound (record s { queue = [] })
  unfolding queue_wire_size
  queue_clear-IsSound = ground arith

  apply_sync_queue-IsSound : Leaves IsSound (apply_sync_queue s p)
  unfolding apply_sync_queue
  apply_sync_queue-IsSound = ground (arith, length-sanitize_queue p.queue)

  apply_update_track-IsSound : Leaves IsSound (apply_update_track s p now_ms)
  unfolding apply_update_track
  apply_update_track-IsSound = ground arith

  apply_set_volume-IsSound : Leaves IsSound (apply_set_volume s p)
  unfolding apply_set_volume
  apply_set_volume-IsSound = ground arith

-- Whatever the action, the verdict leaves a sound state: the queue holds at most 1000 tracks and at most
-- 400 KiB, and the position lies between 0 and 24 hours.
pub apply_action-IsSound :
    (a : Option Action) (s : RoomState) (p : PlaybackActionPayload) (now_ms : ℤ) (rtt_ms : ℕ)
    → IsSound s
    → Leaves IsSound (apply_action a s p now_ms rtt_ms)
unfolding apply_action
apply_action-IsSound none s p now_ms rtt_ms h = h
apply_action-IsSound (some play) s p now_ms rtt_ms h = apply_play-IsSound s p now_ms rtt_ms h
apply_action-IsSound (some pause) s p now_ms rtt_ms h = apply_pause-IsSound s p now_ms rtt_ms h
apply_action-IsSound (some seek) s p now_ms rtt_ms h = apply_seek-IsSound s p now_ms rtt_ms h
apply_action-IsSound (some change_track) s p now_ms rtt_ms h =
    apply_change_track-IsSound s p now_ms rtt_ms h
apply_action-IsSound (some skip_next) s p now_ms rtt_ms h = tt
apply_action-IsSound (some skip_prev) s p now_ms rtt_ms h = tt
apply_action-IsSound (some queue_add) s p now_ms rtt_ms h =
    apply_queue_add-IsSound s p now_ms rtt_ms h
apply_action-IsSound (some queue_remove) s p now_ms rtt_ms h =
    apply_queue_remove-IsSound s p now_ms rtt_ms h
apply_action-IsSound (some queue_clear) s p now_ms rtt_ms h =
    queue_clear-IsSound s p now_ms rtt_ms h
apply_action-IsSound (some sync_queue) s p now_ms rtt_ms h =
    apply_sync_queue-IsSound s p now_ms rtt_ms h
apply_action-IsSound (some update_track) s p now_ms rtt_ms h =
    apply_update_track-IsSound s p now_ms rtt_ms h
apply_action-IsSound (some set_volume) s p now_ms rtt_ms h =
    apply_set_volume-IsSound s p now_ms rtt_ms h
