-- ===== src/Validation.antt =====
-- internal/server/validation.go: cleaning of what clients send, and the projection of the playback
-- position.
pub mod Bounds
pub mod Position
use metroserver.Prelude.{
  ℕ, zero, suc, ◌-◌, Bool, true, false, not, ◌&&◌, ◌||◌, Option, none, some, List, [], ◌∷◌, ltb,
  if◌then◌else◌, length, take, ℤ, pos, ◌+ℤ◌, ◌-ℤ◌, ltb_ℤ, min_ℤ, max_ℤ, wrap64, Bytes, nat_eq,
  bytes_eq_instance, ◌==◌,
}
use metroserver.Limits.{
  max_username_length, max_track_title_length, max_track_artist_length, max_track_url_length,
  max_track_duration, max_track_id_length,
}
use metroserver.Utf8.{keep_runes, trim_space, valid_string, to_valid_utf8, runes}
use metroserver.Protocol.{TrackInfo, RoomState}

-- The runes that sanitizeString keeps.
abbrev pub is_kept : ℕ → Bool
is_kept r = not (r == 0 || ltb r 32 && not (r == 9) && not (r == 10) && not (r == 13))

-- The loop that looks for a cut between two runes: `tries` positions from `i` down.
unfoldable pub find_cut : Bytes → ℕ → ℕ → ℕ → ℕ
find_cut s max_len zero i = max_len
find_cut s max_len (suc tries) i =
    let rest = find_cut s max_len tries (i - 1) in
    if i == 0 then max_len else if valid_string (take i s) then i else rest

unfoldable pub limit_length : Bytes → ℕ → Bytes
unfolding find_cut
limit_length s max_len = if ltb max_len (length s) then take (find_cut s max_len 4 max_len) s else s

unfoldable pub sanitize_string : Bytes → ℕ → Bytes
sanitize_string s max_len =
    let t = trim_space (keep_runes is_kept s) in
    limit_length (if valid_string t then t else to_valid_utf8 t) max_len

-- The loop of validTrackID over the runes.
no_control : List ℕ → Bool
no_control [] = true
no_control (r ∷ rs) = not (ltb r 32 || r == 127) && no_control rs

unfoldable pub valid_track_id : Bytes → Bool
unfolding no_control
valid_track_id id =
    if id == [] || ltb max_track_id_length (length id) || not (valid_string id)
    then false
    else no_control (runes id)

-- The duration that sanitizeTrackInfo leaves.
unfoldable pub clamp_duration : ℤ → ℤ
clamp_duration d =
    if ltb_ℤ d (pos 0)
    then pos 0
    else if ltb_ℤ (pos max_track_duration) d
    then pos max_track_duration
    else d

unfoldable pub sanitize_title : TrackInfo → Bytes
sanitize_title track =
    let title = sanitize_string track.title max_track_title_length in
    if title == [] then sanitize_string track.id max_track_title_length else title

-- The cleaned track, or none where the source returns false.
unfoldable pub sanitize_track_info : TrackInfo → Option TrackInfo
sanitize_track_info track =
    if valid_track_id track.id
    then some (record {
      id = track.id;
      title = sanitize_title track;
      artist = sanitize_string track.artist max_track_artist_length;
      album = sanitize_string track.album max_track_artist_length;
      duration = clamp_duration track.duration;
      thumbnail = sanitize_string track.thumbnail max_track_url_length;
      suggested_by = sanitize_string track.suggested_by max_username_length;
    })
    else none

-- A nil track is refused like an invalid one.
abbrev pub sanitize_track_pointer : Option TrackInfo → Option TrackInfo
sanitize_track_pointer track = elim track [ none ↦ none | some t ↦ sanitize_track_info t ]

-- The position with the time since the last update, in int64.
unfoldable pub advance_position : RoomState → ℤ → ℤ → ℤ
advance_position state now_ms position =
    let elapsed = wrap64 (now_ms -ℤ state.last_update) in
    if state.is_playing && ltb_ℤ (pos 0) state.last_update && ltb_ℤ (pos 0) elapsed
    then wrap64 (position +ℤ elapsed)
    else position

unfoldable pub live_playback_position : RoomState → ℤ → ℤ
live_playback_position state now_ms =
    min_ℤ (advance_position state now_ms (max_ℤ state.position (pos 0))) (pos max_track_duration)

-- A Go copy of a state is the value itself, so cloneRoomState has no counterpart.
unfoldable pub clone_live_room_state : RoomState → ℤ → RoomState
clone_live_room_state state now_ms = record state {
  position = live_playback_position state now_ms;
  last_update = now_ms;
}
