-- ===== src/Dispatch/Deciding.antt =====
-- The handlers of internal/server/rooms.go in which the host decides about members, and leaving, keep, in
-- every room, a property that is closed under the operations on rooms.
use metroserver.Prelude.{
  ℕ, ◌<◌, true, not, ◌&&◌, Option, none, some, [], leb, leb-false→lt, if_keeps, some_keeps, Bytes,
  nat_eq, bytes_eq_instance, ◌==◌, lookup,
}
use metroserver.World.{room_members}
use metroserver.Limits.{max_clients_per_room}
use metroserver.World.{send_error}
use metroserver.World.{set_room, clear_room, Env, Server, Room, is_some, can_host_client}
use metroserver.Protocol.{ApproveJoinPayload, UserReasonPayload, TransferHostPayload}
use metroserver.Rooms.{is_active_host}
use metroserver.Members.{
  drop_applicant, admitted_room, admit_member, judge_applicant, handle_approve_join,
  handle_reject_join, kicked_room, detach_kicked, kick_member, handle_kick_user, transfer_to,
  offer_host, handle_transfer_host,
}
use metroserver.Dispatch.Operations.{IsClosed}
use metroserver.Dispatch.Closure.{
  RoomsHave, either-RoomsHave, set_room-RoomsHave, apply_client-RoomsHave, send_error-RoomsHave,
  send_message-RoomsHave, send_message_to_clients-RoomsHave, policy_snapshot-RoomsHave,
  deliver_host_change-RoomsHave,
}

module _ {P : ℕ → Room → Type 0} (k : IsClosed P) (env : Env) where
  drop_applicant-RoomsHave :
      {s : Server} (r joining : ℕ) (id : Bytes)
      → RoomsHave P s
      → RoomsHave P (drop_applicant env s r joining id)
  unfolding drop_applicant
  drop_applicant-RoomsHave {s} r joining id h = record {
    at = (set_room-RoomsHave r _ h (k.unpend r (s.room_at r) id (h.at r))).at;
  }

  admit_member-RoomsHave :
      {s : Server} (r joining : ℕ) (id : Bytes)
      → RoomsHave P s
      → room_members (s.room_at r) < max_clients_per_room
      → RoomsHave P (admit_member env s r joining id)
  unfolding admit_member
  admit_member-RoomsHave {s} r joining id h few =
      let set : RoomsHave P (set_room s r (admitted_room env s r joining id)) =
        set_room-RoomsHave r _ h (k.admit env s r joining id (h.at r) few) in
      send_message_to_clients-RoomsHave env _ _ (
        policy_snapshot-RoomsHave env joining _
          (send_message-RoomsHave env joining _ (record { at = set.at })))

  judge_applicant-RoomsHave :
      {s : Server} (c r joining : ℕ) (id : Bytes)
      → RoomsHave P s
      → RoomsHave P (judge_applicant env s c r joining id)
  unfolding judge_applicant
  judge_applicant-RoomsHave {s} c r joining id h =
      let dropped = drop_applicant-RoomsHave r joining id h in
      either-RoomsHave (s.outbox_at joining).closed (send_error-RoomsHave env c _ _ dropped) (
        if_keeps (RoomsHave P) (leb max_clients_per_room (room_members (s.room_at r)))
          (λ _. send_error-RoomsHave env c _ _ h)
          λ e.
            either-RoomsHave (is_some (s.client_at joining).room)
              (send_error-RoomsHave env c _ _ (
                apply_client-RoomsHave joining (λ v. record v { affiliation_started = true })
                  dropped))
              (admit_member-RoomsHave r joining id h (leb-false→lt _ _ e)))

  pub handle_approve_join-RoomsHave :
      {s : Server} (c : ℕ) (p : Option ApproveJoinPayload)
      → RoomsHave P s
      → RoomsHave P (handle_approve_join env s c p)
  unfolding handle_approve_join
  handle_approve_join-RoomsHave {s} c payload h =
      let no : (a b : Bytes) → RoomsHave P (send_error env s c a b) =
        λ a b. send_error-RoomsHave env c a b h in
      some_keeps (RoomsHave P) payload (λ _. no _ _)
        λ p _. either-RoomsHave (p.user_id == []) (no _ _) (
          some_keeps (RoomsHave P) (s.client_at c).room (λ _. no _ _)
            λ r _. either-RoomsHave (not (is_active_host (s.room_at r) c)) (no _ _) (
              some_keeps (RoomsHave P) (lookup p.user_id (s.room_at r).pending_joins) (λ _. no _ _)
                (λ joining _. judge_applicant-RoomsHave c r joining p.user_id h)))

  pub handle_reject_join-RoomsHave :
      {s : Server} (c : ℕ) (p : Option UserReasonPayload)
      → RoomsHave P s
      → RoomsHave P (handle_reject_join env s c p)
  unfolding handle_reject_join
  handle_reject_join-RoomsHave {s} c payload h =
      let no : (a b : Bytes) → RoomsHave P (send_error env s c a b) =
        λ a b. send_error-RoomsHave env c a b h in
      some_keeps (RoomsHave P) payload (λ _. no _ _)
        λ p _. either-RoomsHave (p.user_id == []) (no _ _) (
          some_keeps (RoomsHave P) (s.client_at c).room (λ _. no _ _)
            λ r _. either-RoomsHave (not (is_active_host (s.room_at r) c)) (no _ _) (
              some_keeps (RoomsHave P) (lookup p.user_id (s.room_at r).pending_joins) (λ _. no _ _)
                λ joining _.
                  drop_applicant-RoomsHave r joining p.user_id
                    (send_message-RoomsHave env joining _ h)))

  kicked_room_keeps : (r : ℕ) (room : Room) (id : Bytes) → P r room → P r (kicked_room env room id)
  unfolding kicked_room
  kicked_room_keeps r room id h = k.forget r _ id (
      if_keeps (P r) (is_some (lookup id room.clients)) (λ _. k.drop_member r room id h)
        (λ _. k.drop_away r room id h))

  detach_kicked-RoomsHave :
      {s : Server} (r : ℕ) (id reason : Bytes) (target : Option ℕ)
      → RoomsHave P s
      → RoomsHave P (detach_kicked env s r id reason target)
  unfolding detach_kicked
  detach_kicked-RoomsHave r id reason (some d) h =
      apply_client-RoomsHave d (clear_room r) (send_message-RoomsHave env d _ h)
  detach_kicked-RoomsHave r id reason none h = record { at = h.at }

  kick_member-RoomsHave :
      {s : Server} (r : ℕ) (id reason : Bytes)
      → RoomsHave P s
      → RoomsHave P (kick_member env s r id reason)
  unfolding kick_member
  kick_member-RoomsHave {s} r id reason h = send_message_to_clients-RoomsHave env _ _ (
      set_room-RoomsHave r _
        (detach_kicked-RoomsHave r id reason (lookup id (s.room_at r).clients) h)
        (kicked_room_keeps r (s.room_at r) id (h.at r)))

  pub handle_kick_user-RoomsHave :
      {s : Server} (c : ℕ) (p : Option UserReasonPayload)
      → RoomsHave P s
      → RoomsHave P (handle_kick_user env s c p)
  unfolding handle_kick_user
  handle_kick_user-RoomsHave {s} c payload h =
      let no : (a b : Bytes) → RoomsHave P (send_error env s c a b) =
        λ a b. send_error-RoomsHave env c a b h in
      some_keeps (RoomsHave P) payload (λ _. no _ _)
        λ p _. either-RoomsHave (p.user_id == []) (no _ _) (
          some_keeps (RoomsHave P) (s.client_at c).room (λ _. no _ _)
            λ r _.
              let room = s.room_at r in
              either-RoomsHave (not (is_active_host room c)) (no _ _) (
                either-RoomsHave (p.user_id == (s.client_at c).id) (no _ _) (
                  either-RoomsHave
                    (not (is_some (lookup p.user_id room.clients))
                      && not (is_some (lookup p.user_id room.disconnected_users)))
                    (no _ _) (kick_member-RoomsHave r p.user_id _ h))))

  transfer_to-RoomsHave :
      {s : Server} (r d : ℕ) → RoomsHave P s → RoomsHave P (transfer_to env s r d)
  unfolding transfer_to
  transfer_to-RoomsHave {s} r d h =
      let room = record (s.room_at r) { owner_id = [] } in
      deliver_host_change-RoomsHave env _ _
        (set_room-RoomsHave r _ h (k.seat r s room (some d) (k.own r (s.room_at r) [] (h.at r))))

  offer_host-RoomsHave :
      {s : Server} (c r : ℕ) (target : Option ℕ)
      → RoomsHave P s
      → RoomsHave P (offer_host env s c r target)
  unfolding offer_host
  offer_host-RoomsHave c r none h = send_error-RoomsHave env c _ _ h
  offer_host-RoomsHave {s} c r (some d) h =
      either-RoomsHave (s.outbox_at d).closed (send_error-RoomsHave env c _ _ h) (
        either-RoomsHave (not (can_host_client s d)) (send_error-RoomsHave env c _ _ h)
          (transfer_to-RoomsHave r d h))

  pub handle_transfer_host-RoomsHave :
      {s : Server} (c : ℕ) (p : Option TransferHostPayload)
      → RoomsHave P s
      → RoomsHave P (handle_transfer_host env s c p)
  unfolding handle_transfer_host
  handle_transfer_host-RoomsHave {s} c payload h =
      let no : (a b : Bytes) → RoomsHave P (send_error env s c a b) =
        λ a b. send_error-RoomsHave env c a b h in
      some_keeps (RoomsHave P) payload (λ _. no _ _)
        λ p _. either-RoomsHave (p.new_host_id == []) (no _ _) (
          some_keeps (RoomsHave P) (s.client_at c).room (λ _. no _ _)
            λ r _. either-RoomsHave (not (is_active_host (s.room_at r) c)) (no _ _) (
              either-RoomsHave (p.new_host_id == (s.client_at c).id) (no _ _)
                (offer_host-RoomsHave c r (lookup p.new_host_id (s.room_at r).clients) h)))
