-- ===== src/Tests.antt =====
-- Runs of the model at concrete inputs: a room with a host and a guest, and the data they exchange.
pub mod Scenarios
pub mod Theorems
mod Wires
mod Messages
mod Storage
mod Sending
mod Ending
use metroserver.Prelude.{false, List, [], ◌∷◌, some, none, pos, Bytes, bytes}
use metroserver.Protocol.{TrackInfo, RoomState, PlaybackActionPayload, zero_playback, float_one}
use metroserver.Policy.{allow}
use metroserver.World.{Env}
use metroserver.Dispatch.{
  Event, connection, message, disconnect, sessions_tick, create_room, join_room, approve_join,
  playback_action,
}

abbrev pub song : TrackInfo
song = record {
  id = bytes "abc";
  title = bytes "Song";
  artist = bytes "Band";
  album = bytes "Album";
  duration = pos 180000;
  thumbnail = [];
  suggested_by = [];
}

abbrev pub other_song : TrackInfo
other_song = record song { id = bytes "xyz"; title = bytes "Other" }

abbrev pub idle_state : RoomState
idle_state = record {
  room_code = bytes "ROOM";
  host_id = bytes "h";
  users = [];
  current_track = some song;
  is_playing = false;
  position = pos 5000;
  last_update = pos 1000;
  volume = float_one;
  queue = other_song ∷ [];
  revision = 3;
  queue_title = bytes "Mix";
}

-- Whoever acts sees a clock at one minute, and every message takes ten bytes.
abbrev pub minute_env : Bytes → Env
minute_env name = record {
  now = 60_000_000_000;
  now_ms = pos 60000;
  fresh_user_id = name;
  fresh_token = name;
  fresh_suggestion_id = name;
  room_codes = bytes "ROOM" ∷ [];
  to_upper = λ s. s;
  encoded_size = λ compressed m request_id. some 10;
}

abbrev pub play_song : PlaybackActionPayload
play_song = record zero_playback { action = bytes "change_track"; track_info = some song }

-- A host opens a room, a guest asks to join and is let in, and the host starts a track.
abbrev pub evening : List (Env × Event)
evening =
    (minute_env (bytes "h"), connection 0 allow none [])
    ∷ (minute_env (bytes "g"), connection 1 allow none [])
    ∷ (minute_env (bytes "t"), message 0 1 (create_room (some (record { username = bytes "Ann" }))))
    ∷ (
      minute_env (bytes "u"),
      message 1 1 (join_room (some (record { room_code = bytes "ROOM"; username = bytes "Bob" }))),
    )
    ∷ (minute_env (bytes "v"), message 0 2 (approve_join (some (record { user_id = bytes "g" }))))
    ∷ (minute_env (bytes "w"), message 0 3 (playback_action (some play_song)))
    ∷ (minute_env (bytes "x"), disconnect 0)
    ∷ (minute_env (bytes "y"), sessions_tick)
    ∷ []
