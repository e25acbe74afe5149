-- ===== src/Tests/Theorems.antt =====
-- The theorems at concrete inputs.
use metroserver.Prelude.{
  ℕ, ◌+◌, ◌≤◌, ◌<◌, ◌≡◌, refl, ◌↔◌, ◌⊎◌, true, false, none, some, List, [], ◌∷◌, ◌++◌, arith,
  if◌then◌else◌, length, take, filter, All, pos, ◌+ℤ◌, ◌≤ℤ◌, Bytes, bytes, nat_eq,
  bytes_eq_instance, ◌==◌, Map,
}
use metroserver.Prelude.{bytes_beq}
use metroserver.Limits.{
  max_queue_size, max_track_duration, max_connections_per_source, max_messages_per_window,
}
use metroserver.Protocol.{
  TrackInfo, PlaybackActionPayload, zero_playback, change_track, queue_add, ack,
}
use metroserver.Policy.{
  UaPolicy, block, rickroll, advert, resolve, ua_matches, with_rick, rick_track, rick_position,
}
use metroserver.Policy.Laws.{with_rick_lem, resolve_lem}
use metroserver.Validation.{sanitize_string, live_playback_position}
use metroserver.Validation.Bounds.{IsClean, length-sanitize_string}
use metroserver.Validation.Position.{live_playback_position_lem}
use metroserver.Validation.{sanitize_track_info}
use metroserver.Validation.Bounds.{sanitize_track_info-some}
use metroserver.Validation.{valid_track_id, sanitize_title, clamp_duration, limit_length}
use metroserver.Utf8.{valid_string, runes, trim_space, keep_runes}
use metroserver.Queue.{
  sanitize_queue, queue_wire_size, contains_track_id, advance_queue, remove_track,
}
use metroserver.Queue.Laws.{
  clean_all, Advance, sanitize_queue-eq-take, sanitize_queue-IsClean, advance_queue_lem,
  other_entries, remove_track_lem,
}
use metroserver.Playback.{
  apply_action, apply_queue_add, compensate_action_transit, max_action_transit_compensation,
}
use metroserver.Playback.Invariant.{IsSound, Leaves, apply_action-IsSound}
use metroserver.Playback.Effects.{
  KeepsState, apply_action_refused, compensate_action_transit_bounds,
}
use metroserver.Playback.Queueing.{Queues, apply_queue_add_lem}
use metroserver.World.{Outgoing, push_outgoing}
use metroserver.World.Boxes.{IsBounded, push_outgoing_lem}
use metroserver.Connections.{new_server, new_outbox, source_count, acquire_source, release_source}
use metroserver.Connections.Rates.{admitted_messages, admitted_messages-le, acquire_source_lem}
use metroserver.Hosts.{Candidate, pick_deputy, is_eligible}
use metroserver.Hosts.Deputy.{Among, IsBest, pick_deputy_lem}
use metroserver.Dispatch.{run}
use metroserver.Dispatch.Closure.{RoomsHave}
use metroserver.Dispatch.Limits.{run-IsWithinLimits}
use metroserver.Dispatch.HostFlags.{HasHostFlags, run-HasHostFlags}
use metroserver.Tests.{song, other_song, idle_state, minute_env, play_song, evening}
use metroserver.World.{Suggestion}
use metroserver.Suggestions.{count_mine}
use metroserver.Suggestions.Counts.{has_suggested, count_mine_lem}
use metroserver.Sync.{handle_playback_action}
use metroserver.Sync.Revision.{Outcome, handle_playback_action-Outcome}
use metroserver.World.{SourceWindow, RateWindow}
use metroserver.Limits.{max_room_creates_per_source}
use metroserver.Rooms.{allow_room_create}
use metroserver.Rooms.Rates.{window_count, allow_room_create_lem}
use metroserver.Dispatch.Tables.{IsWithinLimits}

run-IsWithinLimits_example : RoomsHave IsWithinLimits (run (new_server 0) evening)
run-IsWithinLimits_example = run-IsWithinLimits 0 evening

run-HasHostFlags_example : RoomsHave HasHostFlags (run (new_server 0) evening)
run-HasHostFlags_example = run-HasHostFlags 0 evening

idle_state-IsSound : IsSound idle_state
unfolding queue_wire_size bytes
idle_state-IsSound = record {
  size = ground arith;
  bytes = ground arith;
  position_nonneg = ground arith;
  position_bound = ground arith;
}

apply_action-IsSound_example :
    Leaves IsSound (apply_action (some change_track) idle_state play_song (pos 60000) 20)
apply_action-IsSound_example =
    apply_action-IsSound (some change_track) idle_state play_song (pos 60000) 20 idle_state-IsSound

apply_action_refused_example :
    KeepsState idle_state (apply_action (some queue_add) idle_state play_song (pos 60000) 20)
apply_action_refused_example =
    apply_action_refused (some queue_add) idle_state play_song (pos 60000) 20

abbrev two_clients : Map Bytes ℕ
two_clients = (bytes "h", 0) ∷ (bytes "g", 1) ∷ []

advance_queue_lem_example :
    Advance
      (other_song ∷ song ∷ [])
      (bytes "abc")
      (advance_queue (other_song ∷ song ∷ []) (bytes "abc"))
advance_queue_lem_example = advance_queue_lem (other_song ∷ song ∷ []) (bytes "abc")

sanitize_queue-eq-take_example :
    sanitize_queue (other_song ∷ song ∷ [])
    ≡ take max_queue_size (clean_all (other_song ∷ song ∷ []))
sanitize_queue-eq-take_example = sanitize_queue-eq-take (other_song ∷ song ∷ [])

sanitize_queue-IsClean_example : All IsClean (sanitize_queue (other_song ∷ song ∷ []))
sanitize_queue-IsClean_example = sanitize_queue-IsClean (other_song ∷ song ∷ [])

remove_track_lem_example :
    (contains_track_id (remove_track (other_song ∷ song ∷ []) (bytes "abc")) (bytes "abc") ≡ false)
    × (other_entries (bytes "abc") (remove_track (other_song ∷ song ∷ []) (bytes "abc"))
        ≡ other_entries (bytes "abc") (other_song ∷ song ∷ []))
    × (length (remove_track (other_song ∷ song ∷ []) (bytes "abc"))
        ≤ length (other_song ∷ song ∷ []))
    × (queue_wire_size (remove_track (other_song ∷ song ∷ []) (bytes "abc"))
        ≤ queue_wire_size (other_song ∷ song ∷ []))
remove_track_lem_example = remove_track_lem (other_song ∷ song ∷ []) (bytes "abc")

length-sanitize_string_example : length (sanitize_string (bytes " a song ") 4) ≤ 4
length-sanitize_string_example = length-sanitize_string (bytes " a song ") 4

compensate_action_transit_bounds_example :
    (pos 5000 ≤ℤ compensate_action_transit (pos 5000) (pos 900) (pos 1000) 20)
    × (compensate_action_transit (pos 5000) (pos 900) (pos 1000) 20
        ≤ℤ pos 5000 +ℤ max_action_transit_compensation)
compensate_action_transit_bounds_example =
    compensate_action_transit_bounds (pos 5000) (pos 900) (pos 1000) 20 (omega arith, omega arith)

pick_deputy_lem_example :
    ((d : Candidate) × (pick_deputy (new_server 0) two_clients ≡ some d.client)
      × Among (new_server 0) two_clients d
      × IsBest (new_server 0) two_clients d)
    ⊎ ((pick_deputy (new_server 0) two_clients ≡ none)
        × All (λ e. is_eligible (new_server 0) e.1 ≡ false) two_clients)
pick_deputy_lem_example = pick_deputy_lem (new_server 0) two_clients

live_playback_position_lem_example :
    (idle_state.position ≤ℤ live_playback_position idle_state (pos 60000))
    × (live_playback_position idle_state (pos 60000) ≤ℤ pos max_track_duration)
    × ((idle_state.is_playing ≡ true)
        ⊎ (live_playback_position idle_state (pos 60000) ≡ idle_state.position))
live_playback_position_lem_example =
    live_playback_position_lem idle_state (pos 60000) (omega arith) (omega arith)
      (omega arith, omega arith) (omega arith) (omega arith)

empty_box-IsBounded : IsBounded new_outbox
unfolding new_outbox
empty_box-IsBounded = record { queue = omega arith; bytes = omega arith }

abbrev ack_out : Outgoing
ack_out = record { message = ack; request_id = 1; size = 10 }

push_outgoing_lem_example :
    IsBounded (push_outgoing new_outbox ack_out)
    × (((push_outgoing new_outbox ack_out).closed ≡ false)
          × ((push_outgoing new_outbox ack_out).send ≡ new_outbox.send ++ ack_out ∷ [])
        ⊎ ((push_outgoing new_outbox ack_out).closed ≡ true)
          × ((push_outgoing new_outbox ack_out).send ≡ new_outbox.send))
push_outgoing_lem_example = push_outgoing_lem new_outbox ack_out empty_box-IsBounded

abbrev first_window : RateWindow
first_window = record { start = some 100; count = 0; notified = false }

admitted_messages-le_example :
    admitted_messages first_window (100 ∷ 200 ∷ []) + first_window.count ≤ max_messages_per_window
admitted_messages-le_example =
    admitted_messages-le first_window 100 (100 ∷ 200 ∷ []) refl (omega arith, (omega arith, tt))
      (omega arith)

acquire_source_lem_example :
    ((source_count [] (bytes "ip") < max_connections_per_source)
      × ((acquire_source [] (bytes "ip")).0 ≡ true)
      × (source_count (acquire_source [] (bytes "ip")).1 (bytes "ip") ≡ (
          if bytes "ip" == bytes "ip"
          then source_count [] (bytes "ip") + 1
          else source_count [] (bytes "ip")))
      × (source_count (release_source (acquire_source [] (bytes "ip")).1 (bytes "ip")) (bytes "ip")
          ≡ source_count [] (bytes "ip")))
    ⊎ ((max_connections_per_source ≤ source_count [] (bytes "ip"))
        × (acquire_source [] (bytes "ip") ≡ (false, [])))
acquire_source_lem_example = acquire_source_lem [] (bytes "ip") (bytes "ip")

with_rick_lem_example :
    (before after : List TrackInfo) × (song ∷ [] ≡ before ++ after)
    × (length before ≡ rick_position (song ∷ []))
    × (rick_position (song ∷ []) ≤ length (song ∷ []))
    × (with_rick (song ∷ []) ≡ before ++ rick_track ∷ after)
    × (length (with_rick (song ∷ [])) ≡ length (song ∷ []) + 1)
with_rick_lem_example = with_rick_lem (song ∷ [])

abbrev new_song : TrackInfo
new_song = record song { id = bytes "new" }

abbrev add_new : PlaybackActionPayload
add_new = record zero_playback { action = bytes "queue_add"; track_info = some new_song }

new_song-clean : sanitize_track_info new_song ≡ some new_song
unfolding sanitize_track_info bytes valid_track_id bytes_beq valid_string runes sanitize_title
    sanitize_string clamp_duration limit_length trim_space keep_runes
new_song-clean = refl

sanitize_track_info-some_example : IsClean new_song × (new_song.id ≡ new_song.id)
sanitize_track_info-some_example = sanitize_track_info-some new_song new_song new_song-clean

apply_queue_add_lem_example : Queues idle_state add_new (apply_queue_add idle_state add_new)
apply_queue_add_lem_example = apply_queue_add_lem idle_state add_new

abbrev lower : Bytes → Bytes
lower s = s

abbrev sample_policy : UaPolicy
sample_policy = record {
  block = bytes "bad" ∷ [];
  rickroll = bytes "fork" ∷ [];
  advert = bytes "mod" ∷ [];
  advert_title = bytes "Get the app";
}

resolve_lem_example :
    ((resolve lower (some sample_policy) (bytes "my fork") ≡ block)
      ↔ (ua_matches (bytes "my fork") sample_policy.block ≡ true))
    × ((resolve lower (some sample_policy) (bytes "my fork") ≡ rickroll) ↔ (
        (ua_matches (bytes "my fork") sample_policy.block ≡ false)
        × (ua_matches (bytes "my fork") sample_policy.rickroll ≡ true)))
    × ((resolve lower (some sample_policy) (bytes "my fork") ≡ advert) ↔ (
        (ua_matches (bytes "my fork") sample_policy.block ≡ false)
        × (ua_matches (bytes "my fork") sample_policy.rickroll ≡ false)
        × (ua_matches (bytes "my fork") sample_policy.advert ≡ true)))
resolve_lem_example = resolve_lem lower sample_policy (bytes "my fork")

handle_playback_action-Outcome_example : RoomsHave (Outcome (run (new_server 0) evening) 0) (
    handle_playback_action (minute_env (bytes "e")) (run (new_server 0) evening) 0 (some play_song))
handle_playback_action-Outcome_example =
    handle_playback_action-Outcome (minute_env (bytes "e")) (run (new_server 0) evening) 0
      (some play_song)

abbrev one_suggestion : Map Bytes Suggestion
one_suggestion =
    (
      bytes "s1",
      record {
        id = bytes "s1";
        from_user_id = bytes "g";
        from_username = bytes "Bob";
        track = some song;
      },
    )
    ∷ []

count_mine_lem_example : count_mine one_suggestion (bytes "g") (bytes "xyz") 0 ≡ (
    if has_suggested one_suggestion (bytes "g") (bytes "xyz")
    then none
    else some (0 + length (filter (λ e. e.1.from_user_id == bytes "g") one_suggestion)))
count_mine_lem_example = count_mine_lem one_suggestion (bytes "g") (bytes "xyz") 0

abbrev old_windows : Map Bytes SourceWindow
old_windows = (bytes "ip", record { start = 0; count = 10 }) ∷ []

allow_room_create_lem_example :
    ((window_count (minute_env []) old_windows (bytes "ip") < max_room_creates_per_source)
      × ((allow_room_create (minute_env []) old_windows (bytes "ip")).0 ≡ true)
      × (window_count
            (minute_env [])
            (allow_room_create (minute_env []) old_windows (bytes "ip")).1
            (bytes "ip")
          ≡ window_count (minute_env []) old_windows (bytes "ip") + 1))
    ⊎ ((max_room_creates_per_source ≤ window_count (minute_env []) old_windows (bytes "ip"))
        × (allow_room_create (minute_env []) old_windows (bytes "ip") ≡ (false, old_windows)))
allow_room_create_lem_example = allow_room_create_lem (minute_env []) old_windows (bytes "ip")
