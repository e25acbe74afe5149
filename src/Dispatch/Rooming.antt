-- ===== src/Dispatch/Rooming.antt =====
-- The handlers of internal/server/rooms.go that create and enter rooms and settle membership keep, in
-- every room, a property that is closed under the operations on rooms.
use metroserver.Prelude.{
  ℕ, ◌<◌, true, not, Option, some, [], leb, leb-false→lt, if_keeps, some_keeps, length, Bytes,
  nat_eq, bytes_eq_instance, ◌==◌, Map, lookup, insert,
}
use metroserver.World.{room_members}
use metroserver.Limits.{max_room_code_length, max_pending_joins, max_clients_per_room}
use metroserver.World.{send_error}
use metroserver.World.{
  apply_client, set_room, SourceWindow, Env, Server, Room, is_some, can_host_client,
}
use metroserver.Limits.{max_username_length, max_rooms}
use metroserver.Validation.{sanitize_string}
use metroserver.Protocol.{CreateRoomPayload, JoinRoomPayload}
use metroserver.Rooms.{
  open_room, admit_room, allow_room_create, pick_code, handle_create_room, request_join, enter_room,
  find_and_enter, handle_join_room,
}
use metroserver.Dispatch.Operations.{IsClosed}
use metroserver.Dispatch.Closure.{
  RoomsHave, either-RoomsHave, set_room-RoomsHave, apply_client-RoomsHave, send_error-RoomsHave,
  send_message-RoomsHave, reply-RoomsHave,
}

module _ {P : ℕ → Room → Type 0} (k : IsClosed P) (env : Env) where
  open_room-RoomsHave :
      {s : Server} (c : ℕ) (code username : Bytes)
      → RoomsHave P s
      → RoomsHave P (open_room env s c code username)
  unfolding open_room
  open_room-RoomsHave {s} c code username h = reply-RoomsHave env c _ (record {
    at =
        (set_room-RoomsHave s.next_room _ h
          (k.found env s.next_room code (s.client_at c).id username c)).at;
  })

  admit_room-RoomsHave :
      {s : Server} (c : ℕ) (code username : Bytes)
      → RoomsHave P s
      → RoomsHave P (admit_room env s c code username)
  unfolding admit_room
  admit_room-RoomsHave {s} c code username h =
      let creates : Map Bytes SourceWindow =
        (allow_room_create env s.room_creates (s.client_at c).source).1 in
      let counted : RoomsHave P (record s { room_creates = creates }) = record { at = h.at } in
      if_keeps (RoomsHave P) ((s.client_at c).source == [])
        (λ _. open_room-RoomsHave c code username h)
        λ _.
          if_keeps (RoomsHave P) (allow_room_create env s.room_creates (s.client_at c).source).0
            (λ _. open_room-RoomsHave c code username counted)
            (λ _. send_error-RoomsHave env c _ _ counted)

  pub handle_create_room-RoomsHave :
      {s : Server} (c : ℕ) (p : Option CreateRoomPayload)
      → RoomsHave P s
      → RoomsHave P (handle_create_room env s c p)
  unfolding handle_create_room
  handle_create_room-RoomsHave {s} c payload h =
      let no : (a b : Bytes) → RoomsHave P (send_error env s c a b) =
        λ a b. send_error-RoomsHave env c a b h in
      either-RoomsHave (not (can_host_client s c)) (no _ _) (
        some_keeps (RoomsHave P) payload (λ _. no _ _)
          λ p _.
            let username = sanitize_string p.username max_username_length in
            either-RoomsHave (p.username == []) (no _ _) (
              either-RoomsHave (is_some (s.client_at c).room) (no _ _) (
                either-RoomsHave (is_some (s.client_at c).pending_room) (no _ _) (
                  either-RoomsHave (username == []) (no _ _) (
                    some_keeps (RoomsHave P) (pick_code env s) (λ _. no _ _)
                      λ code _.
                        either-RoomsHave (leb max_rooms (length s.rooms)) (no _ _)
                          (admit_room-RoomsHave c code username h))))))

  request_join-RoomsHave :
      {s : Server} (c r : ℕ)
      → RoomsHave P s
      → length (s.room_at r).pending_joins < max_pending_joins
      → RoomsHave P (request_join env s c r)
  unfolding request_join
  request_join-RoomsHave {s} c r h few =
      let room = s.room_at r in
      let id = (s.client_at c).id in
      let waiting : RoomsHave P (
          set_room
            (apply_client s c (λ v. record v { affiliation_started = true; pending_room = some r }))
            r (record room { pending_joins = insert id c room.pending_joins })) =
        record { at = (set_room-RoomsHave r _ h (k.pend r room id c (h.at r) few)).at } in
      some_keeps (RoomsHave P) room.host (λ _. waiting)
        λ t _.
          either-RoomsHave (is_some room.host_disconnected_at) waiting
            (send_message-RoomsHave env t _ waiting)

  enter_room-RoomsHave : {s : Server} (c r : ℕ) → RoomsHave P s → RoomsHave P (enter_room env s c r)
  unfolding enter_room
  enter_room-RoomsHave {s} c r h =
      let no : (a b : Bytes) → RoomsHave P (send_error env s c a b) =
        λ a b. send_error-RoomsHave env c a b h in
      let room = s.room_at r in
      let id = (s.client_at c).id in
      either-RoomsHave (is_some (lookup id room.clients)) (no _ _) (
        either-RoomsHave (is_some (lookup id room.pending_joins)) (no _ _) (
          either-RoomsHave (leb max_clients_per_room (room_members room)) (no _ _) (
            if_keeps (RoomsHave P) (leb max_pending_joins (length room.pending_joins)) (λ _. no _ _)
              λ e.
                either-RoomsHave (room.state.host_id == []) (no _ _)
                  (request_join-RoomsHave c r h (leb-false→lt _ _ e)))))

  pub handle_join_room-RoomsHave :
      {s : Server} (c : ℕ) (p : Option JoinRoomPayload)
      → RoomsHave P s
      → RoomsHave P (handle_join_room env s c p)
  unfolding handle_join_room find_and_enter
  handle_join_room-RoomsHave {s} c payload h =
      let no : (a b : Bytes) → RoomsHave P (send_error env s c a b) =
        λ a b. send_error-RoomsHave env c a b h in
      some_keeps (RoomsHave P) payload (λ _. no _ _)
        λ p _.
          let username = sanitize_string p.username max_username_length in
          let code = sanitize_string (env.to_upper p.room_code) max_room_code_length in
          either-RoomsHave (p.username == []) (no _ _) (
            either-RoomsHave (is_some (s.client_at c).room) (no _ _) (
              either-RoomsHave (is_some (s.client_at c).pending_room) (no _ _) (
                either-RoomsHave (username == []) (no _ _) (
                  either-RoomsHave (p.room_code == []) (no _ _) (
                    either-RoomsHave (code == []) (no _ _) (
                      some_keeps (RoomsHave P) (lookup code s.rooms) (λ _. no _ _)
                        λ r _.
                          enter_room-RoomsHave c r (
                            apply_client-RoomsHave c (λ v. record v { username = username })
                              h)))))))
