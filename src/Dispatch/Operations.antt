-- ===== src/Dispatch/Operations.antt =====
-- The operations by which the handlers of internal/server change a room, as what a property of rooms must
-- withstand for every handler to keep it.
use metroserver.Prelude.{
  ◌∷◌, ℕ, ◌<◌, ◌≡◌, Option, none, some, List, [], ◌∷◌, length, Bytes, nat_eq, bytes_eq_instance,
  Map, lookup, insert, delete,
}
use metroserver.Limits.{max_clients_per_room, max_pending_joins}
use metroserver.Protocol.{RoomState, Message}
use metroserver.World.{Env, Server, Room, room_members}
use metroserver.Hosts.{seat_host}
use metroserver.Lifecycle.{forget_user, park_member}
use metroserver.Reconnect.{reseat}
use metroserver.Members.{admitted_room}
use metroserver.Limits.{max_pending_suggestions, max_queue_size, max_queue_bytes}
use metroserver.Protocol.{Action, PlaybackActionPayload, TrackInfo}
use metroserver.Prelude.{ℤ, ◌≤◌}
use metroserver.World.{Suggestion}
use metroserver.Queue.{queue_wire_size}
use metroserver.Playback.{apply_action}
use metroserver.Playback.Invariant.{Leaves}
use metroserver.Rooms.{new_room}
use metroserver.Suggestions.{credit_suggestion, approved_room}

-- The room operations that a property of rooms withstands.
pub record IsClosed (P : ℕ → Room → Type 0) : Type 0 where
  pub pend :
      (r : ℕ) (room : Room) (id : Bytes) (c : ℕ)
      → P r room
      → length room.pending_joins < max_pending_joins
      → P r (record room { pending_joins = insert id c room.pending_joins })
  pub unpend :
      (r : ℕ) (room : Room) (id : Bytes)
      → P r room
      → P r (record room { pending_joins = delete id room.pending_joins })
  pub unpend_all : (r : ℕ) (room : Room) → P r room → P r (record room { pending_joins = [] })
  pub mark_empty :
      (r : ℕ) (room : Room) (since : Option ℕ)
      → P r room
      → P r (record room { empty_since = since })
  pub shut :
      (r : ℕ) (room : Room)
      → P r room
      → P r (record room { clients = []; pending_joins = []; disconnected_users = []; host = none })
  pub seat : (r : ℕ) (s : Server) (room : Room) (h : Option ℕ) → P r room → P r (seat_host s room h)
  pub own : (r : ℕ) (room : Room) (id : Bytes) → P r room → P r (record room { owner_id = id })
  pub forget : (r : ℕ) (room : Room) (id : Bytes) → P r room → P r (forget_user id room)
  pub drop_member :
      (r : ℕ) (room : Room) (id : Bytes)
      → P r room
      → P r (record room { clients = delete id room.clients })
  pub drop_away :
      (r : ℕ) (room : Room) (id : Bytes)
      → P r room
      → P r (record room { disconnected_users = delete id room.disconnected_users })
  pub park :
      (env : Env) (r : ℕ) (room : Room) (c : ℕ) (id : Bytes) (session : ℕ)
      → P r room
      → lookup id room.clients ≡ some c
      → P r (park_member env room c id session)
  pub retake :
      (env : Env) (r : ℕ) (room : Room) (c : ℕ) (id : Bytes) (session : ℕ)
      → P r room
      → lookup id room.disconnected_users ≡ some session
      → P r (reseat env room c id)
  pub admit :
      (env : Env) (s : Server) (r joining : ℕ) (id : Bytes)
      → P r (s.room_at r)
      → room_members (s.room_at r) < max_clients_per_room
      → P r (admitted_room env s r joining id)
  pub notices :
      (r : ℕ) (room : Room) (m : Map Bytes (List Message))
      → P r room
      → P r (record room { pending_notices = m })
  pub found :
      (env : Env) (r : ℕ) (code id username : Bytes) (c : ℕ) → P r (new_room env code id username c)
  pub sequence :
      (r : ℕ) (room : Room) (n : ℕ) → P r room → P r (record room { last_host_sequence = n })
  pub play :
      (r : ℕ) (room : Room) (a : Option Action) (p : PlaybackActionPayload) (now_ms : ℤ)
      (rtt_ms : ℕ)
      → P r room
      → Leaves
          (λ state. P r (record room { state = state }))
          (apply_action a room.state p now_ms rtt_ms)
  pub publish :
      (r : ℕ) (room : Room) (state : RoomState) (revision track_revision : ℕ)
      → P r (record room { state = state })
      → P r (record room {
        state = record state { revision = revision };
        track_revision = track_revision;
      })
  pub suggest :
      (r : ℕ) (room : Room) (id : Bytes) (suggestion : Suggestion)
      → P r room
      → length room.pending_suggestions < max_pending_suggestions
      → P r (record room { pending_suggestions = insert id suggestion room.pending_suggestions })
  pub unsuggest :
      (r : ℕ) (room : Room) (id : Bytes)
      → P r room
      → P r (record room { pending_suggestions = delete id room.pending_suggestions })
  pub credit :
      (env : Env) (r : ℕ) (room : Room) (id : Bytes) (suggestion : Suggestion) (t : TrackInfo)
      → P r room
      → lookup id room.pending_suggestions ≡ some suggestion
      → P r (credit_suggestion env room id suggestion t)
  pub accept_untitled :
      (env : Env) (r : ℕ) (room : Room) (id from : Bytes)
      → P r room
      → P r (approved_room env room id from none room.state.queue)
  pub accept :
      (env : Env) (r : ℕ) (room : Room) (id from : Bytes) (t : TrackInfo)
      → P r room
      → length room.state.queue < max_queue_size
      → queue_wire_size (t ∷ room.state.queue) ≤ max_queue_bytes
      → P r (approved_room env room id from (some t) (t ∷ room.state.queue))
