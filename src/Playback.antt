-- ===== src/Playback.antt =====
-- The switch of handlePlaybackAction (internal/server/playback.go): what each action of the host
-- does to the room's playback state and to the payload that is broadcast.
pub mod Invariant
pub mod Effects
pub mod Queueing
use metroserver.Prelude.{
  ℕ, ◌+◌, ◌-◌, ◌*◌, ◌/◌, ◌%◌, ◌^◌, Bool, true, false, not, ◌||◌, Option, none, some, List, [], ◌∷◌,
  ◌++◌, ltb, leb, if◌then◌else◌, length, ℤ, pos, ◌+ℤ◌, ◌-ℤ◌, ltb_ℤ, leb_ℤ, min_ℤ, max_ℤ, int64_max,
  wrap64, Bytes, bytes, nat_eq, bytes_eq_instance, ◌==◌,
}
use metroserver.Limits.{max_queue_size, max_queue_bytes, max_track_duration}
use metroserver.Protocol.{
  Float64, nan, inf, finite, TrackInfo, RoomState, PlaybackActionPayload, SyncStatePayload,
  ErrorPayload, Action, play, pause, seek, skip_next, skip_prev, change_track, queue_add,
  queue_remove, queue_clear, sync_queue, set_volume, update_track,
}
use metroserver.Validation.{sanitize_track_info, sanitize_track_pointer, live_playback_position}
use metroserver.Queue.{
  sanitize_queue, queue_wire_size, contains_track_id, advance_queue, remove_track,
}

abbrev pub fault : Bytes → Bytes → ErrorPayload
fault code message = record { code = code; message = message }

-- What the switch decides: `applied` goes on below it with the new state and payload, `refused` sends
-- an error, and `silent` returns without a word. A refusal carries the state that it leaves.
pub data Verdict : Type 0 where
  applied : RoomState → PlaybackActionPayload → Verdict
  refused : RoomState → ErrorPayload → Verdict
  silent : Verdict

-- None is the stale_track error; an omitted track ID is filled in.
unfoldable pub validate_playback_track :
    RoomState → PlaybackActionPayload → Option PlaybackActionPayload
validate_playback_track state p = elim state.current_track [
  | none ↦ some p
  | some t ↦
      if p.track_id == []
      then some (record p { track_id = t.id })
      else if p.track_id == t.id
      then some p
      else none
]

unfoldable pub clamp_playback_position : ℤ → ℤ
clamp_playback_position position = min_ℤ (max_ℤ position (pos 0)) (pos max_track_duration)

abbrev pub max_action_transit_compensation : ℤ
max_action_transit_compensation = pos 30000

-- The time that the action spent in transit.
abbrev pub transit_time : ℤ → ℤ → ℕ → ℤ
transit_time captured now_ms rtt_ms =
    if ltb_ℤ (pos 0) captured then wrap64 (now_ms -ℤ captured) else pos (rtt_ms / 2)

unfoldable pub shift_position : ℤ → ℤ → ℤ
shift_position position elapsed =
    if leb_ℤ elapsed (pos 0) || ltb_ℤ max_action_transit_compensation elapsed
    then position
    else if ltb_ℤ (wrap64 (int64_max -ℤ elapsed)) position
    then int64_max
    else wrap64 (position +ℤ elapsed)

unfoldable pub compensate_action_transit : ℤ → ℤ → ℤ → ℕ → ℤ
compensate_action_transit position captured now_ms rtt_ms =
    shift_position position (transit_time captured now_ms rtt_ms)

abbrev negative_position : RoomState → Verdict
negative_position state =
    refused state (fault (bytes "invalid_position") (bytes "Position cannot be negative"))

abbrev stale_action_track : RoomState → Verdict
stale_action_track state =
    refused state (fault (bytes "stale_track") (bytes "Playback action targets a stale track"))

unfoldable pub apply_play : RoomState → PlaybackActionPayload → ℤ → ℕ → Verdict
unfolding validate_playback_track clamp_playback_position
apply_play state p now_ms rtt_ms = elim state.current_track [
  | none ↦ refused state (fault (bytes "no_track") (bytes "Cannot play without a track"))
  | some _ ↦
      if ltb_ℤ p.position (pos 0)
      then negative_position state
      else elim (validate_playback_track state p) [
        | none ↦ stale_action_track state
        | some q ↦
            let position =
              clamp_playback_position
                (compensate_action_transit q.position q.captured_at_server_time now_ms rtt_ms) in
            applied (record state { is_playing = true; position = position; last_update = now_ms })
              (record q { position = position })
      ]
]

unfoldable pub apply_pause : RoomState → PlaybackActionPayload → ℤ → Verdict
unfolding validate_playback_track clamp_playback_position
apply_pause state p now_ms =
    if ltb_ℤ p.position (pos 0)
    then negative_position state
    else elim (validate_playback_track state p) [
      | none ↦ stale_action_track state
      | some q ↦
          let position = clamp_playback_position q.position in
          applied (record state { is_playing = false; position = position; last_update = now_ms })
            (record q { position = position })
    ]

unfoldable pub apply_seek : RoomState → PlaybackActionPayload → ℤ → ℕ → Verdict
unfolding validate_playback_track clamp_playback_position
apply_seek state p now_ms rtt_ms =
    if ltb_ℤ p.position (pos 0)
    then negative_position state
    else elim (validate_playback_track state p) [
      | none ↦ stale_action_track state
      | some q ↦
          let position = clamp_playback_position (
            if state.is_playing
            then compensate_action_transit q.position q.captured_at_server_time now_ms rtt_ms
            else q.position) in
          applied (record state { position = position; last_update = now_ms })
            (record q { position = position })
    ]

abbrev queue_too_large : RoomState → Verdict
queue_too_large state = refused state (fault (bytes "queue_too_large") (bytes "Queue is too large"))

abbrev invalid_track : RoomState → Verdict
invalid_track state =
    refused state (fault (bytes "invalid_track_info") (bytes "Track must have ID and title"))

-- The payload brings a queue of its own.
abbrev pub replaces_queue : PlaybackActionPayload → Bool
replaces_queue p = ltb 0 (length p.queue) || p.replace_queue

unfoldable pub next_queue : RoomState → PlaybackActionPayload → TrackInfo → List TrackInfo
next_queue state p t =
    if replaces_queue p then sanitize_queue p.queue else advance_queue state.queue t.id

-- The queue title is assigned before the size of the queue is known.
unfoldable pub retitle : RoomState → PlaybackActionPayload → RoomState
retitle state p = if replaces_queue p then record state { queue_title = p.queue_title } else state

unfoldable pub start_track : RoomState → PlaybackActionPayload → TrackInfo → ℤ → Verdict
start_track state p t now_ms =
    let queue = next_queue state p t in
    if ltb max_queue_bytes (queue_wire_size queue)
    then queue_too_large (retitle state p)
    else applied
        (record (retitle state p) {
          queue = queue;
          current_track = some t;
          position = pos 0;
          is_playing = false;
          last_update = now_ms;
        })
        (record p { track_info = some t; track_id = t.id; position = pos 0 })

unfoldable pub apply_change_track : RoomState → PlaybackActionPayload → ℤ → Verdict
apply_change_track state p now_ms = elim p.track_info [
  | none ↦
      refused state
        (fault (bytes "missing_track_info") (bytes "Track info is required for track change"))
  | some raw ↦ elim (sanitize_track_info raw) [
    | none ↦ invalid_track state
    | some t ↦ start_track state p t now_ms
  ]
]

-- The track plays now, or is queued.
unfoldable pub is_known_track : RoomState → Bytes → Bool
is_known_track state id =
    elim state.current_track [ none ↦ false | some t ↦ t.id == id ]
    || contains_track_id state.queue id

unfoldable pub enqueue_track : RoomState → PlaybackActionPayload → TrackInfo → Verdict
enqueue_track state p t =
    let queue = if p.insert_next then t ∷ state.queue else state.queue ++ t ∷ [] in
    if leb max_queue_size (length state.queue)
    then refused state (fault (bytes "queue_full") (bytes "Queue is full"))
    else if is_known_track state t.id
    then refused state
        (fault (bytes "duplicate_track") (bytes "Track is already playing or queued"))
    else if ltb max_queue_bytes (queue_wire_size queue)
    then queue_too_large state
    else applied (record state { queue = queue }) (record p { track_info = some t })

unfoldable pub apply_queue_add : RoomState → PlaybackActionPayload → Verdict
apply_queue_add state p = elim p.track_info [
  | none ↦
      refused state
        (fault (bytes "missing_track_info") (bytes "Track info is required for queue add"))
  | some raw ↦ elim (sanitize_track_info raw) [
    | none ↦ invalid_track state
    | some t ↦ enqueue_track state p t
  ]
]

unfoldable pub apply_queue_remove : RoomState → PlaybackActionPayload → Verdict
apply_queue_remove state p =
    if p.track_id == []
    then refused state
        (fault (bytes "missing_track_id") (bytes "Track ID is required for queue remove"))
    else applied (record state { queue = remove_track state.queue p.track_id }) p

unfoldable pub apply_sync_queue : RoomState → PlaybackActionPayload → Verdict
apply_sync_queue state p =
    let queue = sanitize_queue p.queue in
    if ltb max_queue_bytes (queue_wire_size queue)
    then queue_too_large state
    else applied (record state { queue = queue; queue_title = p.queue_title }) p

abbrev stale_update : RoomState → Verdict
stale_update state =
    refused state (fault (bytes "stale_track") (bytes "Track update targets a stale track"))

unfoldable pub apply_update_track : RoomState → PlaybackActionPayload → ℤ → Verdict
apply_update_track state p now_ms = elim (sanitize_track_pointer p.track_info) [
  | none ↦ refused state (fault (bytes "invalid_track_info") (bytes "Track info is required"))
  | some t ↦ elim state.current_track [
    | none ↦ stale_update state
    | some current ↦
        if not (current.id == t.id)
        then stale_update state
        else applied (record state { current_track = some t })
            (record p {
              track_info = some t;
              track_id = t.id;
              position = live_playback_position state now_ms;
            })
  ]
]

-- math.IsNaN(v) || math.IsInf(v, 0) || v < 0 || v > 1
unfoldable pub is_invalid_volume : Float64 → Bool
is_invalid_volume nan = true
is_invalid_volume (inf negative) = true
is_invalid_volume (finite true m e) = not (m == 0)
is_invalid_volume (finite false m e) = ltb (2 ^ 1074) (m * 2 ^ e)

unfoldable pub apply_set_volume : RoomState → PlaybackActionPayload → Verdict
apply_set_volume state p =
    if is_invalid_volume p.volume
    then refused state (fault (bytes "invalid_volume") (bytes "Volume must be between 0 and 1"))
    else applied (record state { volume = p.volume }) p

unfoldable pub apply_action : Option Action → RoomState → PlaybackActionPayload → ℤ → ℕ → Verdict
unfolding apply_play apply_pause apply_seek apply_change_track apply_queue_add apply_queue_remove
    apply_sync_queue apply_update_track apply_set_volume
apply_action none state p now_ms rtt_ms =
    refused state (fault (bytes "unknown_action") (bytes "Unknown action: " ++ p.action))
apply_action (some play) state p now_ms rtt_ms = apply_play state p now_ms rtt_ms
apply_action (some pause) state p now_ms rtt_ms = apply_pause state p now_ms
apply_action (some seek) state p now_ms rtt_ms = apply_seek state p now_ms rtt_ms
apply_action (some change_track) state p now_ms rtt_ms = apply_change_track state p now_ms
apply_action (some skip_next) state p now_ms rtt_ms = silent
apply_action (some skip_prev) state p now_ms rtt_ms = silent
apply_action (some queue_add) state p now_ms rtt_ms = apply_queue_add state p
apply_action (some queue_remove) state p now_ms rtt_ms = apply_queue_remove state p
apply_action (some queue_clear) state p now_ms rtt_ms = applied (record state { queue = [] }) p
apply_action (some sync_queue) state p now_ms rtt_ms = apply_sync_queue state p
apply_action (some update_track) state p now_ms rtt_ms = apply_update_track state p now_ms
apply_action (some set_volume) state p now_ms rtt_ms = apply_set_volume state p

-- The actions whose broadcast carries the whole queue.
abbrev pub carries_queue : Option Action → Bool
carries_queue (some change_track) = true
carries_queue (some queue_add) = true
carries_queue (some queue_remove) = true
carries_queue (some queue_clear) = true
carries_queue (some sync_queue) = true
carries_queue _ = false

abbrev pub is_change_track : Option Action → Bool
is_change_track (some change_track) = true
is_change_track _ = false

abbrev pub is_update_track : Option Action → Bool
is_update_track (some update_track) = true
is_update_track _ = false

-- A uint64 counter wraps around.
abbrev pub next_revision : RoomState → ℕ
next_revision state = (state.revision + 1) % 18_446_744_073_709_551_616

-- Below the switch: the payload that goes out.
unfoldable pub outgoing_action :
    Option Action → RoomState → PlaybackActionPayload → ℤ → Bytes → PlaybackActionPayload
outgoing_action action state p now_ms origin = record p {
  queue = if carries_queue action then state.queue else p.queue;
  revision = next_revision state;
  server_time = now_ms;
  captured_at_server_time = pos 0;
  host_sequence = 0;
  origin_user_id = origin;
  queue_title = state.queue_title;
}

-- syncSnapshotLocked
unfoldable pub sync_snapshot : RoomState → ℤ → SyncStatePayload
sync_snapshot state now_ms = record {
  current_track = state.current_track;
  is_playing = state.is_playing;
  position = live_playback_position state now_ms;
  last_update = now_ms;
  queue = state.queue;
  volume = state.volume;
  revision = state.revision;
  queue_title = state.queue_title;
}
