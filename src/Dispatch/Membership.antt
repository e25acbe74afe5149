-- ===== src/Dispatch/Membership.antt =====
-- Each handler of internal/server/hosts.go and lifecycle.go keeps, in every room, a property that is
-- closed under the membership operations.
use metroserver.Prelude.{
  filter, map, ℕ, ◌≡◌, refl, ap, Bool, true, false, not, ◌&&◌, Option, none, some, List, [], ◌∷◌,
  arith, if◌then◌else◌, if_keeps, some_keeps, Bytes, bytes, nat_eq, bytes_eq_instance, ◌==◌, ==-iff,
  Map, lookup, delete,
}
use metroserver.Protocol.{join_rejected, UserPayload, user_left}
use metroserver.World.{
  Env, Server, Room, Session, points_to, is_some, clear_pending_room, set_room, room_clients,
}
use metroserver.Hosts.{
  HostChange, hostless_dead, seat_host, pick_deputy, close_room, no_host_left_reason, failover_room,
  failover_each, failover_hosts_once, is_failover_due, claim_owner,
}
use metroserver.Lifecycle.{
  is_expired, is_empty_room, delete_room_if_empty, remove_pending_join, handle_client_disconnect,
  remove_client, expire_session, cleanup_expired_sessions_once, cleanup_empty_rooms_once,
  forget_user, settle_departure, past_retention, expire_each, cleanup_room, cleanup_each,
}
use metroserver.Dispatch.Operations.{IsClosed}
use metroserver.Dispatch.Closure.{
  RoomsHave, set_room-RoomsHave, apply_client-RoomsHave, send_message_to_clients-RoomsHave,
  dismiss_all-RoomsHave, deliver_host_change-RoomsHave,
}

-- A pointer that was found.
pub points_to-eq : (o : Option ℕ) (r : ℕ) → points_to o r ≡ true → o ≡ some r
unfolding points_to
points_to-eq none r h = cc
points_to-eq (some q) r h = ap some ((==-iff q r).0 h)

pub is_some-eq {ℓ} : {A : Type ℓ} (o : Option A) → is_some o ≡ true → (a : A) × (o ≡ some a)
is_some-eq none h = cc
is_some-eq (some a) h = (a, refl)

pub not-false : (b : Bool) → not b ≡ false → b ≡ true
not-false b h = ground arith

module _ {P : ℕ → Room → Type 0} (k : IsClosed P) (env : Env) where
  pub close_room-RoomsHave :
      {s : Server} (r : ℕ) (reason : Bytes)
      → RoomsHave P s
      → RoomsHave P (close_room env s r reason)
  unfolding close_room
  close_room-RoomsHave {s} r reason h =
      set_room-RoomsHave r _
        (dismiss_all-RoomsHave env _ _ (s.room_at r).pending_joins
          (dismiss_all-RoomsHave env _ _ (s.room_at r).clients (record { at = h.at })))
        (k.shut r (s.room_at r) (h.at r))

  pub delete_room_if_empty-RoomsHave :
      {s : Server} (r : ℕ) → RoomsHave P s → RoomsHave P (delete_room_if_empty env s r).1
  unfolding delete_room_if_empty
  delete_room_if_empty-RoomsHave {s} r h =
      let room = s.room_at r in
      if_keeps (λ (x : Bool × Server). RoomsHave P x.1)
        (not (points_to (lookup room.code s.rooms) r)) (λ _. h)
        λ _.
          if_keeps (λ (x : Bool × Server). RoomsHave P x.1) (not (is_empty_room room)) (λ _. h)
            λ _. record {
              at =
                  (set_room-RoomsHave r _
                    (dismiss_all-RoomsHave env (clear_pending_room r)
                      (join_rejected (bytes "Room is no longer available")) room.pending_joins h)
                    (k.unpend_all r room (h.at r))).at;
            }

  pub remove_pending_join-RoomsHave :
      {s : Server} (c : ℕ) → RoomsHave P s → RoomsHave P (remove_pending_join env s c)
  unfolding remove_pending_join
  remove_pending_join-RoomsHave {s} c h =
      some_keeps (RoomsHave P) (s.client_at c).pending_room (λ _. h)
        λ r _. apply_client-RoomsHave c (clear_pending_room r) (
          set_room-RoomsHave r _ h (
            if_keeps (P r) (points_to (lookup (s.client_at c).id (s.room_at r).pending_joins) c)
              (λ _. k.unpend r (s.room_at r) (s.client_at c).id (h.at r)) (λ _. h.at r)))

  pub handle_client_disconnect-RoomsHave :
      {s : Server} (c : ℕ) → RoomsHave P s → RoomsHave P (handle_client_disconnect env s c)
  unfolding handle_client_disconnect
  handle_client_disconnect-RoomsHave {s} c h =
      some_keeps (RoomsHave P) (s.client_at c).room (λ _. h)
        λ r _.
          if_keeps (RoomsHave P)
            (not (points_to (lookup (s.client_at c).id (s.room_at r).clients) c))
            (λ _. record { at = h.at })
            λ e. send_message_to_clients-RoomsHave env _ _ (record {
              at =
                  (set_room-RoomsHave r _ h (
                    k.park env r (s.room_at r) c (s.client_at c).id s.next_session (h.at r)
                      (points_to-eq _ c (not-false _ e)))).at;
            })

  pub remove_client-RoomsHave :
      {s : Server} (c : ℕ) → RoomsHave P s → RoomsHave P (remove_client env s c)
  unfolding remove_client
  remove_client-RoomsHave {s} c h =
      if_keeps (RoomsHave P) (is_some (s.client_at c).room)
        (λ _. handle_client_disconnect-RoomsHave c (record { at = h.at }))
        (λ _. remove_pending_join-RoomsHave c (record { at = h.at }))

  seat_if :
      (r : ℕ) (s : Server) (room : Room) (was_host : Bool) (d : Option ℕ)
      → P r room
      → P r (if was_host then seat_host s room d else room)
  seat_if r s room was_host d h = if_keeps (P r) was_host (λ _. k.seat r s room d h) (λ _. h)

  pub settle_departure-RoomsHave :
      {s : Server} (r : ℕ) (room : Room) (user : UserPayload) (change : Option HostChange)
      → RoomsHave P s
      → RoomsHave P (settle_departure env s r room user change)
  unfolding settle_departure
  settle_departure-RoomsHave r room user change h =
      let told =
        deliver_host_change-RoomsHave env (room_clients room) change
          (send_message_to_clients-RoomsHave env (room_clients room) (user_left user) h) in
      if_keeps (RoomsHave P) (hostless_dead room)
        (λ _. close_room-RoomsHave r no_host_left_reason told) (λ _. told)

  pub expire_session-RoomsHave :
      {s : Server} (r : ℕ) (session : Session) (past : Bool)
      → RoomsHave P s
      → RoomsHave P (expire_session env s r session past)
  unfolding expire_session
  expire_session-RoomsHave {s} r session past h =
      let room = s.room_at r in
      let id = session.user_id in
      let left =
        forget_user id (record room { disconnected_users = delete id room.disconnected_users }) in
      let was_host = room.state.host_id == id in
      let deputy = pick_deputy s room.clients in
      let seated = if was_host then seat_host s left deputy else left in
      let set : RoomsHave P (set_room s r seated) =
        set_room-RoomsHave r seated h
          (seat_if r s left was_host deputy (k.forget r _ id (k.drop_away r room id (h.at r)))) in
      if_keeps (RoomsHave P) (not (is_some (lookup id room.disconnected_users))) (λ _. h)
        λ _.
          if_keeps (RoomsHave P) (is_empty_room seated && past)
            (λ _. delete_room_if_empty-RoomsHave r set)
            λ _. settle_departure-RoomsHave r seated _ _ set

  pub expire_each-RoomsHave :
      (ns : List ℕ) {s : Server} → RoomsHave P s → RoomsHave P (expire_each env s ns)
  unfolding expire_each
  expire_each-RoomsHave [] h = h
  expire_each-RoomsHave (n ∷ rest) {s} h = expire_each-RoomsHave rest (
      some_keeps (RoomsHave P) (lookup (s.session_at n).room_code s.rooms) (λ _. h)
        (λ r _. expire_session-RoomsHave r (s.session_at n) (past_retention env s) h))

  pub sessions_tick-RoomsHave :
      {s : Server} → RoomsHave P s → RoomsHave P (cleanup_expired_sessions_once env s)
  unfolding cleanup_expired_sessions_once
  sessions_tick-RoomsHave {s} h =
      let kept : Server = record s {
        sessions = filter (λ e. not (is_expired env (s.session_at e.1))) s.sessions;
      } in
      expire_each-RoomsHave
        (map (λ e. e.1) (filter (λ e. is_expired env (s.session_at e.1)) s.sessions)) {s = kept}
        (record { at = h.at })

  cleanup_room-RoomsHave : {s : Server} (r : ℕ) → RoomsHave P s → RoomsHave P (cleanup_room env s r)
  unfolding cleanup_room
  cleanup_room-RoomsHave {s} r h =
      let room = s.room_at r in
      if_keeps (RoomsHave P) (not (is_empty_room room)) (λ _. h)
        λ _.
          some_keeps (RoomsHave P) room.empty_since
            (λ _. set_room-RoomsHave r _ h (k.mark_empty r room (some env.now) (h.at r)))
            λ since _. if_keeps (RoomsHave P) _ (λ _. delete_room_if_empty-RoomsHave r h) (λ _. h)

  cleanup_each-RoomsHave :
      (rooms : Map Bytes ℕ) {s : Server} → RoomsHave P s → RoomsHave P (cleanup_each env s rooms)
  unfolding cleanup_each
  cleanup_each-RoomsHave [] h = h
  cleanup_each-RoomsHave ((code, r) ∷ rest) h =
      cleanup_each-RoomsHave rest (cleanup_room-RoomsHave r h)

  pub rooms_tick-RoomsHave :
      {s : Server} → RoomsHave P s → RoomsHave P (cleanup_empty_rooms_once env s)
  unfolding cleanup_empty_rooms_once
  rooms_tick-RoomsHave {s} h = cleanup_each-RoomsHave s.rooms h

  failover_room-RoomsHave :
      {s : Server} (r : ℕ) → RoomsHave P s → RoomsHave P (failover_room env s r)
  unfolding failover_room
  failover_room-RoomsHave {s} r h =
      let room = s.room_at r in
      if_keeps (RoomsHave P) (is_failover_due env room)
        (λ _.
          some_keeps (RoomsHave P) (pick_deputy s room.clients) (λ _. h)
            λ d _. deliver_host_change-RoomsHave env _ _ (
              set_room-RoomsHave r _ h
                (k.seat r s (claim_owner room) (some d) (k.own r room _ (h.at r)))))
        (λ _. h)

  failover_each-RoomsHave :
      (rooms : Map Bytes ℕ) {s : Server} → RoomsHave P s → RoomsHave P (failover_each env s rooms)
  unfolding failover_each
  failover_each-RoomsHave [] h = h
  failover_each-RoomsHave ((code, r) ∷ rest) h =
      failover_each-RoomsHave rest (failover_room-RoomsHave r h)

  pub failover_tick-RoomsHave :
      {s : Server} → RoomsHave P s → RoomsHave P (failover_hosts_once env s)
  unfolding failover_hosts_once
  failover_tick-RoomsHave {s} h = failover_each-RoomsHave s.rooms h
