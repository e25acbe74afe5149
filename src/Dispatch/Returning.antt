-- ===== src/Dispatch/Returning.antt =====
-- handleReconnect of internal/server/lifecycle.go keeps, in every room, a property that is closed under the
-- operations on rooms.
use metroserver.Prelude.{
  ℕ, ◌≡◌, Bool, not, ◌||◌, Option, none, some, List, [], if◌then◌else◌, ||-false, if_keeps,
  some_keeps, Bytes, nat_eq, bytes_eq_instance, ◌==◌, lookup, delete,
}
use metroserver.Protocol.{Message, ReconnectPayload}
use metroserver.World.{Session}
use metroserver.Hosts.{HostChange}
use metroserver.Reconnect.{
  Claim, granted, session_not_found, session_expired, host_not_allowed, claim, find_holder,
  replace_live_session, reseat, takes_host, release_owner, restored_client, deliver_reconnected,
  restore_member, not_reconnectable, resume, settle_claim, claim_or_replace, handle_reconnect,
}
use metroserver.Hosts.{seat_host}
use metroserver.World.{send_error}
use metroserver.World.{apply_client, set_room, Env, Server, Room, is_some, points_to}
use metroserver.Dispatch.Operations.{IsClosed}
use metroserver.Dispatch.Closure.{
  RoomsHave, either-RoomsHave, set_room-RoomsHave, send_error-RoomsHave, reply-RoomsHave,
  send_all-RoomsHave, send_message_to_clients-RoomsHave, policy_snapshot-RoomsHave,
  announce_host-RoomsHave, replay_host_work-RoomsHave,
}
use metroserver.Dispatch.Membership.{handle_client_disconnect-RoomsHave, not-false, is_some-eq}

module _ {P : ℕ → Room → Type 0} (k : IsClosed P) (env : Env) where
  deliver_reconnected-RoomsHave :
      {s : Server} (c : ℕ) (room : Room) (id : Bytes) (notices : List Message)
      (change : Option HostChange)
      → RoomsHave P s
      → RoomsHave P (deliver_reconnected env s c room id notices change)
  unfolding deliver_reconnected
  deliver_reconnected-RoomsHave {s} c room id notices change h =
      let told = send_message_to_clients-RoomsHave env _ _ (
        send_all-RoomsHave env c notices
          (policy_snapshot-RoomsHave env c _ (reply-RoomsHave env c _ h))) in
      some_keeps (RoomsHave P) change (λ _. told)
        λ ch _.
          replay_host_work-RoomsHave env (some c) ch.joins ch.suggestions
            (announce_host-RoomsHave env _ ch.announce told)

  restore_member-RoomsHave :
      {s : Server} (c : ℕ) (token : Bytes) (r : ℕ) (session : Session) (n : ℕ)
      → RoomsHave P s
      → lookup session.user_id (s.room_at r).disconnected_users ≡ some n
      → RoomsHave P (restore_member env s c token r session)
  unfolding restore_member
  restore_member-RoomsHave {s} c token r session n h away =
      let id = session.user_id in
      let claimed =
        apply_client (record s { sessions = delete token s.sessions }) c
          (restored_client env r session token) in
      let room = reseat env (s.room_at r) c id in
      let hosts = takes_host env s c room id in
      let hr = k.retake env r (s.room_at r) c id n (h.at r) away in
      let seated = if hosts then release_owner env id (seat_host claimed room (some c)) else room in
      let hs : P r seated =
        if_keeps (P r) hosts (λ _. k.own r _ _ (k.seat r claimed room (some c) hr)) (λ _. hr) in
      let final = record seated { pending_notices = delete id seated.pending_notices } in
      let set : RoomsHave P (set_room s r final) =
        set_room-RoomsHave r final h (k.notices r seated _ hs) in
      deliver_reconnected-RoomsHave c final id _ _ (record { at = set.at })

  resume-RoomsHave :
      {s : Server} (c : ℕ) (token : Bytes) (n : ℕ)
      → RoomsHave P s
      → RoomsHave P (resume env s c token n)
  unfolding resume not_reconnectable
  resume-RoomsHave {s} c token n h =
      let session = s.session_at n in
      some_keeps (RoomsHave P) (lookup session.room_code s.rooms)
        (λ _. send_error-RoomsHave env c _ _ (record { at = h.at }))
        λ r _.
          let room = s.room_at r in
          if_keeps (RoomsHave P)
            (not (points_to (lookup token s.sessions) n)
              || not (is_some (lookup session.user_id room.disconnected_users))
              || is_some (lookup session.user_id room.clients))
            (λ _. send_error-RoomsHave env c _ _ h)
            λ e.
              let away = lookup session.user_id room.disconnected_users in
              let stale = not (points_to (lookup token s.sessions) n) in
              let (m, q) = is_some-eq away (
                not-false _
                  (||-false stale (not (is_some away))
                    (||-false (stale || not (is_some away)) _ e).0).1) in
              either-RoomsHave (is_some (s.client_at c).room) (send_error-RoomsHave env c _ _ h)
                (restore_member-RoomsHave c token r session m h q)

  settle_claim-RoomsHave :
      {s : Server} (c : ℕ) (token : Bytes) (a : Claim)
      → RoomsHave P s
      → RoomsHave P (settle_claim env s c token a)
  unfolding settle_claim
  settle_claim-RoomsHave c token (granted n) h = resume-RoomsHave c token n h
  settle_claim-RoomsHave c token session_not_found h = send_error-RoomsHave env c _ _ h
  settle_claim-RoomsHave c token session_expired h = send_error-RoomsHave env c _ _ h
  settle_claim-RoomsHave c token host_not_allowed h = send_error-RoomsHave env c _ _ h

  replace_live_session-RoomsHave :
      {s : Server} (c : ℕ) (token : Bytes)
      → RoomsHave P s
      → RoomsHave P (replace_live_session env s c token).1
  unfolding replace_live_session
  replace_live_session-RoomsHave {s} c token h =
      some_keeps (λ (x : Bool × Server). RoomsHave P x.1) (find_holder env s c token s.clients)
        (λ _. h) λ old _. record { at = (handle_client_disconnect-RoomsHave k env old h).at }

  claim_or_replace-RoomsHave :
      {s : Server} (c : ℕ) (token : Bytes) (a : Claim)
      → RoomsHave P s
      → RoomsHave P (claim_or_replace env s c token a)
  unfolding claim_or_replace
  claim_or_replace-RoomsHave c token (granted n) h = settle_claim-RoomsHave c token (granted n) h
  claim_or_replace-RoomsHave {s} c token session_not_found h =
      let s' = (replace_live_session env s c token).1 in
      either-RoomsHave (replace_live_session env s c token).0
        (settle_claim-RoomsHave c token (claim env s' c token)
          (replace_live_session-RoomsHave c token h))
        (settle_claim-RoomsHave c token session_not_found h)
  claim_or_replace-RoomsHave c token session_expired h =
      settle_claim-RoomsHave c token session_expired h
  claim_or_replace-RoomsHave c token host_not_allowed h =
      settle_claim-RoomsHave c token host_not_allowed h

  pub handle_reconnect-RoomsHave :
      {s : Server} (c : ℕ) (p : Option ReconnectPayload)
      → RoomsHave P s
      → RoomsHave P (handle_reconnect env s c p)
  unfolding handle_reconnect
  handle_reconnect-RoomsHave c none h = send_error-RoomsHave env c _ _ h
  handle_reconnect-RoomsHave {s} c (some p) h =
      let no : (a b : Bytes) → RoomsHave P (send_error env s c a b) =
        λ a b. send_error-RoomsHave env c a b h in
      either-RoomsHave (p.session_token == []) (no _ _) (
        either-RoomsHave (is_some (s.client_at c).room) (no _ _) (
          either-RoomsHave (is_some (s.client_at c).pending_room) (no _ _)
            (claim_or_replace-RoomsHave c p.session_token (claim env s c p.session_token) h)))
