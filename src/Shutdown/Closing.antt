-- ===== src/Shutdown/Closing.antt =====
-- What the end of the server does to its connections.
use metroserver.Prelude.{
  ℕ, ◌≡◌, refl, ◌∙◌, ◌⊎◌, inl, inr, true, false, Option, List, [], ◌∷◌, bytes, Bytes, Bool-cases,
  if_keeps, ==-iff, nat_eq, ◌==◌,
}
use metroserver.Protocol.{feature_server_restarting}
use metroserver.Policy.{UaTier, UaPolicy}
use metroserver.World.{Env, Server, Outbox, has_feature, send_message, close_send_with}
use metroserver.Connections.{connect}
use metroserver.Shutdown.{
  restart_notice, close_service_restart, notify_from, announce_restart, drain_from, drain_clients,
}

-- The client is one of the list.
abbrev pub IsListed : ℕ → List ℕ → Type 0
IsListed c [] = ⊥
IsListed c (d ∷ rest) = (d ≡ c) ⊎ IsListed c rest

-- The end of the server changes none of this.
pub record IsSameServer (s t : Server) : Type 0 where
  pub rooms : t.rooms ≡ s.rooms
  pub room_at : t.room_at ≡ s.room_at
  pub sessions : t.sessions ≡ s.sessions
  pub session_at : t.session_at ≡ s.session_at
  pub clients : t.clients ≡ s.clients

same_trans : {s t u : Server} → IsSameServer s t → IsSameServer t u → IsSameServer s u
same_trans a b = record {
  rooms = b.rooms ∙ a.rooms;
  room_at = b.room_at ∙ a.room_at;
  sessions = b.sessions ∙ a.sessions;
  session_at = b.session_at ∙ a.session_at;
  clients = b.clients ∙ a.clients;
}

same_refl : (s : Server) → IsSameServer s s
same_refl s = record {
  rooms = refl;
  room_at = refl;
  sessions = refl;
  session_at = refl;
  clients = refl;
}

close_send_with_closed :
    (o : Outbox) (code : ℕ) (reason : Bytes) → (close_send_with o code reason).closed ≡ true
unfolding close_send_with
close_send_with_closed o code reason = elim (Bool-cases o.closed) [
  | inl y ↦ rw y refl
  | inr n ↦ rw n refl
]

drain_from-IsSameServer : (clients : List ℕ) (s : Server) → IsSameServer s (drain_from s clients)
unfolding drain_from
drain_from-IsSameServer [] s = same_refl s
drain_from-IsSameServer (c ∷ rest) s =
    same_trans
      (record { rooms = refl; room_at = refl; sessions = refl; session_at = refl; clients = refl })
      (drain_from-IsSameServer rest _)

drain_from_shutting_down :
    (clients : List ℕ) (s : Server) → (drain_from s clients).shutting_down ≡ s.shutting_down
unfolding drain_from
drain_from_shutting_down [] s = refl
drain_from_shutting_down (c ∷ rest) s = drain_from_shutting_down rest _

-- A queue that is closed, or whose client is still to come, is closed in the end.
drain_from_closed :
    (clients : List ℕ) (s : Server) (c : ℕ)
    → ((s.outbox_at c).closed ≡ true) ⊎ IsListed c clients
    → ((drain_from s clients).outbox_at c).closed ≡ true
unfolding drain_from
drain_from_closed [] s c (inl h) = h
drain_from_closed [] s c (inr m) = absurd m
drain_from_closed (d ∷ rest) s c h = elim (Bool-cases (d == c)) [
  | inl y ↦ drain_from_closed rest _ c (
      inl (
        rw y (
          close_send_with_closed (s.outbox_at d) close_service_restart
            (bytes "server restarting"))))
  | inr n ↦ drain_from_closed rest _ c (rw n (later n h))
]
  where
    later :
        d == c ≡ false
        → ((s.outbox_at c).closed ≡ true) ⊎ ((d ≡ c) ⊎ IsListed c rest)
        → ((s.outbox_at c).closed ≡ true) ⊎ IsListed c rest
    later n (inl k) = inl k
    later n (inr (inl e)) = let y : d == c ≡ true = (==-iff d c).1 e in cc
    later n (inr (inr m)) = inr m

module _ (env : Env) where
  notify_from-IsSameServer :
      (clients : List ℕ) (s : Server) → IsSameServer s (notify_from env s clients)
  unfolding notify_from send_message
  notify_from-IsSameServer [] s = same_refl s
  notify_from-IsSameServer (c ∷ rest) s =
      same_trans
        (if_keeps (IsSameServer s) (has_feature s c feature_server_restarting)
          {x = send_message env s c restart_notice} {y = s}
          (λ _. record {
            rooms = refl;
            room_at = refl;
            sessions = refl;
            session_at = refl;
            clients = refl;
          })
          (λ _. same_refl s))
        (notify_from-IsSameServer rest _)

  notify_from_shutting_down :
      (clients : List ℕ) (s : Server) → (notify_from env s clients).shutting_down ≡ s.shutting_down
  unfolding notify_from send_message
  notify_from_shutting_down [] s = refl
  notify_from_shutting_down (c ∷ rest) s =
      notify_from_shutting_down rest _
      ∙ if_keeps (λ (t : Server). t.shutting_down ≡ s.shutting_down)
          (has_feature s c feature_server_restarting) {x = send_message env s c restart_notice}
          {y = s} (λ _. refl) (λ _. refl)

  -- Once the restart is announced and the queues are closed, no connection is admitted any more, the queue of every
  -- client is closed, and no room and no session has changed.
  pub drain_clients-announce_restart :
      (s : Server) (c : ℕ) (late : Env) (d : ℕ) (tier : UaTier) (policy : Option UaPolicy)
      (source : Bytes)
      → IsListed c s.clients
      → (((drain_clients (announce_restart env s)).outbox_at c).closed ≡ true)
        × IsSameServer s (drain_clients (announce_restart env s))
        × (connect late (drain_clients (announce_restart env s)) d tier policy source
            ≡ drain_clients (announce_restart env s))
  unfolding drain_clients announce_restart connect
  drain_clients-announce_restart s c late d tier policy source m =
      let going : Server = record s { shutting_down = true } in
      let told = notify_from env going s.clients in
      let same : IsSameServer s told =
        same_trans
          (record {
            rooms = refl;
            room_at = refl;
            sessions = refl;
            session_at = refl;
            clients = refl;
          })
          (notify_from-IsSameServer s.clients going) in
      (
        drain_from_closed told.clients told c (inr (rw same.clients m)),
        same_trans same (drain_from-IsSameServer told.clients told),
        (let down : (drain_from told told.clients).shutting_down ≡ true =
              drain_from_shutting_down told.clients told
              ∙ notify_from_shutting_down s.clients going in
            rw down),
      )
