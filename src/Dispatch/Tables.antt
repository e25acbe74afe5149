-- ===== src/Dispatch/Tables.antt =====
-- The tables of a room and their limits, internal/server/server.go: what the operations on a room do to them.
-- The playback state is sound, and the tables of the room are within their limits.
use metroserver.Prelude.{
  ℕ, ◌≤◌, ◌<◌, ◌≡◌, refl, sym, subst, Option, none, some, List, [], arith, ltb, if_keeps, length,
  length-filter-le, pos, ◌≤ℤ◌, Bytes, nat_eq, bytes_eq_instance, Map, lookup, insert, delete,
  length-insert-le, length-delete-le, length-delete-lt,
}
use metroserver.Limits.{
  max_queue_size, max_queue_bytes, max_track_duration, max_clients_per_room, max_pending_joins,
  max_pending_suggestions, max_suggestions_per_user,
}
use metroserver.Protocol.{Message, RoomState, TrackInfo}
use metroserver.Queue.{queue_wire_size}
use metroserver.Playback.Invariant.{IsSound}
use metroserver.World.{Env, Server, Room, room_members, remove_user_suggestions}
use metroserver.Hosts.{seat_host}
use metroserver.Lifecycle.{forget_user, park_member}
use metroserver.Reconnect.{reseat}
use metroserver.Members.{admitted_room}
use metroserver.Suggestions.{queue_notice, approved_room}
use metroserver.Rooms.{new_room}
use metroserver.World.{Suggestion, is_some}
use metroserver.Playback.{Verdict, applied, refused, silent, next_revision}
use metroserver.Playback.Invariant.{Leaves}

pub record IsWithinLimits (r : ℕ) (room : Room) : Type 0 where
  pub sound : IsSound room.state
  pub members : room_members room ≤ max_clients_per_room
  pub applicants : length room.pending_joins ≤ max_pending_joins
  pub suggestions : length room.pending_suggestions ≤ max_pending_suggestions

-- A room that has the state and the tables of one within the limits, or smaller ones.
pub within :
    {r : ℕ} (a b : Room)
    → IsWithinLimits r a
    → IsSound b.state
    → room_members b ≤ room_members a
    → length b.pending_joins ≤ length a.pending_joins
    → length b.pending_suggestions ≤ length a.pending_suggestions
    → IsWithinLimits r b
within a b h sound m p s = record {
  sound = sound;
  members = omega (arith, h.members);
  applicants = omega (arith, h.applicants);
  suggestions = omega (arith, h.suggestions);
}

pub same_queue :
    (s t : RoomState) → IsSound s → t.queue ≡ s.queue → t.position ≡ s.position → IsSound t
same_queue s t h q p = record {
  size = subst (λ x. length x ≤ max_queue_size) (sym q) h.size;
  bytes = subst (λ x. queue_wire_size x ≤ max_queue_bytes) (sym q) h.bytes;
  position_nonneg = subst (λ x. pos 0 ≤ℤ x) (sym p) h.position_nonneg;
  position_bound = subst (λ x. x ≤ℤ pos max_track_duration) (sym p) h.position_bound;
}

module _ (r : ℕ) (room : Room) (h : IsWithinLimits r room) where
  pub forget_user-within : (id : Bytes) → IsWithinLimits r (forget_user id room)
  unfolding forget_user remove_user_suggestions
  forget_user-within id =
      within room _ h (same_queue room.state _ h.sound refl refl) (omega arith) (omega arith)
        (length-filter-le _ room.pending_suggestions)

  pub seat_host-within : (s : Server) (c : Option ℕ) → IsWithinLimits r (seat_host s room c)
  unfolding seat_host
  seat_host-within s c =
      within room _ h (same_queue room.state _ h.sound refl refl) (omega arith) (omega arith)
        (omega arith)

  pub park_member-within :
      (env : Env) (c : ℕ) (id : Bytes) (session : ℕ)
      → lookup id room.clients ≡ some c
      → IsWithinLimits r (park_member env room c id session)
  unfolding park_member
  park_member-within env c id session found =
      within room _ h (same_queue room.state _ h.sound refl refl)
        (omega (
          arith,
          length-delete-lt id c room.clients found,
          length-insert-le id session room.disconnected_users,
        ))
        (omega arith) (omega arith)

  pub reseat-within :
      (env : Env) (c : ℕ) (id : Bytes) (session : ℕ)
      → lookup id room.disconnected_users ≡ some session
      → IsWithinLimits r (reseat env room c id)
  unfolding reseat
  reseat-within env c id session found =
      within room _ h (same_queue room.state _ h.sound refl refl)
        (omega (
          arith,
          length-delete-lt id session room.disconnected_users found,
          length-insert-le id c room.clients,
        ))
        (omega arith) (omega arith)

  pub notices-within :
      (m : Map Bytes (List Message)) → IsWithinLimits r (record room { pending_notices = m })
  notices-within m = within room _ h h.sound (omega arith) (omega arith) (omega arith)

  pub queue_notice-within :
      (id : Bytes) (notice : Message) → IsWithinLimits r (queue_notice room id notice)
  unfolding queue_notice
  queue_notice-within id notice =
      let waiting : List Message = elim (lookup id room.pending_notices) [
        | none ↦ []
        | some ms ↦ ms
      ] in
      if_keeps (IsWithinLimits r) (is_some (lookup id room.disconnected_users))
        (λ _.
          if_keeps (IsWithinLimits r) (ltb (length waiting) max_suggestions_per_user)
            (λ _. notices-within _) (λ _. h))
        (λ _. h)

pub approved_room-within :
    (r : ℕ) (env : Env) (room : Room) (id from : Bytes) (track : Option TrackInfo)
    (queue : List TrackInfo)
    → IsWithinLimits r room
    → length queue ≤ max_queue_size
    → queue_wire_size queue ≤ max_queue_bytes
    → IsWithinLimits r (approved_room env room id from track queue)
unfolding approved_room
approved_room-within r env room id from track queue h short light =
    let added : Room = record room {
      pending_suggestions = delete id room.pending_suggestions;
      state = record room.state { queue = queue; revision = next_revision room.state };
    } in
    let ha : IsWithinLimits r added =
      within room added h
        (record {
          size = short;
          bytes = light;
          position_nonneg = h.sound.position_nonneg;
          position_bound = h.sound.position_bound;
        })
        (omega arith) (omega arith) (length-delete-le id room.pending_suggestions) in
    if_keeps (IsWithinLimits r) (is_some (lookup from room.clients)) (λ _. ha)
      (λ _. queue_notice-within r added ha from _)

pub play-within :
    (r : ℕ) (room : Room) (v : Verdict)
    → IsWithinLimits r room
    → Leaves IsSound v
    → Leaves (λ state. IsWithinLimits r (record room { state = state })) v
play-within r room (applied state p) h hv =
    within room _ h hv (omega arith) (omega arith) (omega arith)
play-within r room (refused state e) h hv =
    within room _ h hv (omega arith) (omega arith) (omega arith)
play-within r room silent h hv = hv

pub new_room-within :
    (env : Env) (r : ℕ) (code id username : Bytes) (c : ℕ)
    → IsWithinLimits r (new_room env code id username c)
unfolding new_room queue_wire_size
new_room-within env r code id username c = record {
  sound = record {
    size = omega arith;
    bytes = omega arith;
    position_nonneg = ground arith;
    position_bound = ground arith;
  };
  members = omega arith;
  applicants = omega arith;
  suggestions = omega arith;
}

pub within_pend :
    (r : ℕ) (room : Room) (id : Bytes) (c : ℕ)
    → IsWithinLimits r room
    → length room.pending_joins < max_pending_joins
    → IsWithinLimits r (record room { pending_joins = insert id c room.pending_joins })
within_pend r room id c h few = record {
  sound = h.sound;
  members = h.members;
  applicants = omega (arith, length-insert-le id c room.pending_joins);
  suggestions = h.suggestions;
}

pub within_suggest :
    (r : ℕ) (room : Room) (id : Bytes) (suggestion : Suggestion)
    → IsWithinLimits r room
    → length room.pending_suggestions < max_pending_suggestions
    → IsWithinLimits r
        (record room { pending_suggestions = insert id suggestion room.pending_suggestions })
within_suggest r room id suggestion h few = record {
  sound = h.sound;
  members = h.members;
  applicants = h.applicants;
  suggestions = omega (arith, length-insert-le id suggestion room.pending_suggestions);
}

pub admitted_room-within :
    (env : Env) (s : Server) (r joining : ℕ) (id : Bytes)
    → IsWithinLimits r (s.room_at r)
    → room_members (s.room_at r) < max_clients_per_room
    → IsWithinLimits r (admitted_room env s r joining id)
unfolding admitted_room
admitted_room-within env s r joining id h few = record {
  sound = same_queue (s.room_at r).state _ h.sound refl refl;
  members = omega (arith, length-insert-le (s.client_at joining).id joining (s.room_at r).clients);
  applicants = omega (arith, length-delete-le id (s.room_at r).pending_joins, h.applicants);
  suggestions = h.suggestions;
}
