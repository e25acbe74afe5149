-- ===== src/Dispatch/Leaving.antt =====
-- leaveRoom of internal/server/rooms.go and handleReconnect of lifecycle.go keep, in every room, a property
-- that is closed under the operations on rooms.
use metroserver.Prelude.{
  ℕ, Bool, not, some, if◌then◌else◌, if_keeps, some_keeps, Bytes, nat_eq, bytes_eq_instance, lookup,
}
use metroserver.Lifecycle.{is_empty_room}
use metroserver.Hosts.{seat_host, pick_deputy}
use metroserver.World.{apply_client, set_room, clear_room, Env, Server, Room, points_to}
use metroserver.Protocol.{UserPayload}
use metroserver.Members.{left_room, depart, leave_from, leave_room}
use metroserver.Dispatch.Operations.{IsClosed}
use metroserver.Dispatch.Closure.{
  RoomsHave, either-RoomsHave, set_room-RoomsHave, apply_client-RoomsHave,
}
use metroserver.Dispatch.Membership.{
  remove_pending_join-RoomsHave, delete_room_if_empty-RoomsHave, settle_departure-RoomsHave,
}

module _ {P : ℕ → Room → Type 0} (k : IsClosed P) (env : Env) where
  left_room_keeps : (r : ℕ) (room : Room) (id : Bytes) → P r room → P r (left_room env room id)
  unfolding left_room
  left_room_keeps r room id h =
      k.forget r _ id (k.drop_away r _ id (k.unpend r _ id (k.drop_member r room id h)))

  depart-RoomsHave :
      {s : Server} (r : ℕ) (left : Room) (was_host : Bool) (user : UserPayload) (token : Bytes)
      → RoomsHave P s
      → P r left
      → RoomsHave P (depart env s r left was_host user token)
  unfolding depart
  depart-RoomsHave {s} r left was_host user token h hl =
      let deputy = pick_deputy s left.clients in
      let seated = if was_host then seat_host s left deputy else left in
      let set : RoomsHave P (set_room s r seated) =
        set_room-RoomsHave r seated h
          (if_keeps (P r) was_host (λ _. k.seat r s left deputy hl) (λ _. hl)) in
      settle_departure-RoomsHave k env r seated user _ (record { at = set.at })

  leave_from-RoomsHave : {s : Server} (c r : ℕ) → RoomsHave P s → RoomsHave P (leave_from env s c r)
  unfolding leave_from
  leave_from-RoomsHave {s} c r h =
      let room = s.room_at r in
      let client = s.client_at c in
      let left = left_room env room client.id in
      let hl = left_room_keeps r room client.id (h.at r) in
      let freed : RoomsHave P (apply_client s c (clear_room r)) =
        apply_client-RoomsHave c (clear_room r) h in
      let empty =
        set_room-RoomsHave r (record left { empty_since = some env.now }) freed
          (k.mark_empty r left (some env.now) hl) in
      either-RoomsHave (not (points_to (lookup client.id room.clients) c)) freed (
        if_keeps (RoomsHave P) (is_empty_room left)
          (λ _. delete_room_if_empty-RoomsHave k env r (record { at = empty.at }))
          (λ _. depart-RoomsHave r left (points_to room.host c) _ client.session_token freed hl))

  pub leave_room-RoomsHave : {s : Server} (c : ℕ) → RoomsHave P s → RoomsHave P (leave_room env s c)
  unfolding leave_room
  leave_room-RoomsHave {s} c h =
      some_keeps (RoomsHave P) (s.client_at c).room
        (λ _. record { at = (remove_pending_join-RoomsHave k env c h).at })
        (λ r _. leave_from-RoomsHave c r h)
