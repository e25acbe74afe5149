-- ===== src/Dispatch/Steps.antt =====
-- The dispatch of internal/server/server.go, and every event, keep in every room a property that is
-- closed under the operations on rooms.
use metroserver.Prelude.{
  ℕ, false, not, ◌&&◌, Option, List, [], ◌∷◌, leb, some_keeps, length, Bytes, nat_eq,
  bytes_eq_instance, ◌==◌,
}
use metroserver.Limits.{max_clients}
use metroserver.Protocol.{
  ClientCapabilitiesPayload, ack, feature_request_id, feature_server_restarting,
}
use metroserver.Policy.{UaTier, UaPolicy, block, tier_beq}
use metroserver.Connections.{allow_message, should_notify_rate_limit}
use metroserver.World.{Env, Server, Room, set_rates, set_outbox, send_error, has_feature}
use metroserver.Connections.{connect, acquire_source}
use metroserver.Dispatch.{
  Request, create_room, join_room, leave, approve_join, reject_join, playback_action, buffer_ready,
  kick_user, transfer_host, ping, request_sync, reconnect, suggest_track, approve_suggestion,
  reject_suggestion, client_capabilities, unknown, too_large, untyped, malformed,
  handle_client_capabilities, dispatch, acknowledge, handle_message, read_message, Event,
  connection, message, disconnect, sessions_tick, rooms_tick, failover_tick, restart_signal,
  drain_signal, step, run,
}
use metroserver.Shutdown.{notify_from, restart_notice, announce_restart, drain_from, drain_clients}
use metroserver.Dispatch.Operations.{IsClosed}
use metroserver.Dispatch.Closure.{
  RoomsHave, either-RoomsHave, send_error-RoomsHave, send_message-RoomsHave, reply-RoomsHave,
}
use metroserver.Dispatch.Membership.{
  remove_client-RoomsHave, sessions_tick-RoomsHave, rooms_tick-RoomsHave, failover_tick-RoomsHave,
}
use metroserver.Dispatch.Rooming.{handle_create_room-RoomsHave, handle_join_room-RoomsHave}
use metroserver.Dispatch.Deciding.{
  handle_approve_join-RoomsHave, handle_reject_join-RoomsHave, handle_kick_user-RoomsHave,
  handle_transfer_host-RoomsHave,
}
use metroserver.Dispatch.Leaving.{leave_room-RoomsHave}
use metroserver.Dispatch.Returning.{handle_reconnect-RoomsHave}
use metroserver.Dispatch.Playing.{
  handle_playback_action-RoomsHave, handle_buffer_ready-RoomsHave, handle_request_sync-RoomsHave,
  handle_ping-RoomsHave,
}
use metroserver.Dispatch.Suggesting.{
  handle_suggest_track-RoomsHave, handle_approve_suggestion-RoomsHave,
  handle_reject_suggestion-RoomsHave,
}

module _ {P : ℕ → Room → Type 0} (k : IsClosed P) (env : Env) where
  handle_client_capabilities-RoomsHave :
      {s : Server} (c : ℕ) (p : Option ClientCapabilitiesPayload)
      → RoomsHave P s
      → RoomsHave P (handle_client_capabilities env s c p)
  unfolding handle_client_capabilities
  handle_client_capabilities-RoomsHave {s} c payload h =
      let no : (a b : Bytes) → RoomsHave P (send_error env s c a b) =
        λ a b. send_error-RoomsHave env c a b h in
      some_keeps (RoomsHave P) payload (λ _. no _ _)
        λ p _. either-RoomsHave (not p.supports_protobuf) (no _ _) (
          either-RoomsHave (s.client_at c).affiliation_started (no _ _) (
            either-RoomsHave (s.client_at c).capabilities_set (no _ _)
              (reply-RoomsHave env c _ (record { at = h.at }))))

  dispatch-RoomsHave :
      {s : Server} (c : ℕ) (q : Request) → RoomsHave P s → RoomsHave P (dispatch env s c q)
  unfolding dispatch
  dispatch-RoomsHave c (create_room p) h = handle_create_room-RoomsHave k env c p h
  dispatch-RoomsHave c (join_room p) h = handle_join_room-RoomsHave k env c p h
  dispatch-RoomsHave c leave h = leave_room-RoomsHave k env c h
  dispatch-RoomsHave c (approve_join p) h = handle_approve_join-RoomsHave k env c p h
  dispatch-RoomsHave c (reject_join p) h = handle_reject_join-RoomsHave k env c p h
  dispatch-RoomsHave c (playback_action p) h = handle_playback_action-RoomsHave k env c p h
  dispatch-RoomsHave c (buffer_ready p) h = handle_buffer_ready-RoomsHave k env c p h
  dispatch-RoomsHave c (kick_user p) h = handle_kick_user-RoomsHave k env c p h
  dispatch-RoomsHave c (transfer_host p) h = handle_transfer_host-RoomsHave k env c p h
  dispatch-RoomsHave c (ping p received_at) h = handle_ping-RoomsHave k env c p received_at h
  dispatch-RoomsHave c request_sync h = handle_request_sync-RoomsHave k env c h
  dispatch-RoomsHave c (reconnect p) h = handle_reconnect-RoomsHave k env c p h
  dispatch-RoomsHave c (suggest_track p) h = handle_suggest_track-RoomsHave k env c p h
  dispatch-RoomsHave c (approve_suggestion p) h = handle_approve_suggestion-RoomsHave k env c p h
  dispatch-RoomsHave c (reject_suggestion p) h = handle_reject_suggestion-RoomsHave k env c p h
  dispatch-RoomsHave c (client_capabilities p) h = handle_client_capabilities-RoomsHave c p h
  dispatch-RoomsHave c (unknown name) h = send_error-RoomsHave env c _ _ h
  dispatch-RoomsHave c too_large h = send_error-RoomsHave env c _ _ h
  dispatch-RoomsHave c untyped h = send_error-RoomsHave env c _ _ h
  dispatch-RoomsHave c malformed h = send_error-RoomsHave env c _ _ h

  handle_message-RoomsHave :
      {s : Server} (c request_id : ℕ) (q : Request)
      → RoomsHave P s
      → RoomsHave P (handle_message env s c request_id q)
  unfolding handle_message acknowledge
  handle_message-RoomsHave {s} c request_id q h =
      let begun =
        set_outbox s c (record (s.outbox_at c) { request_id = request_id; replied = false }) in
      let done = dispatch env begun c q in
      let hd : RoomsHave P done = dispatch-RoomsHave {s = begun} c q (record { at = h.at }) in
      let ha =
        either-RoomsHave
          (not (request_id == 0)
            && not (done.outbox_at c).replied
            && has_feature done c feature_request_id)
          (reply-RoomsHave env c ack hd) hd in
      record { at = ha.at }

  read_message-RoomsHave :
      {s : Server} (c request_id : ℕ) (q : Request)
      → RoomsHave P s
      → RoomsHave P (read_message env s c request_id q)
  unfolding read_message
  read_message-RoomsHave {s} c request_id q h =
      let counted = allow_message (s.rates_at c) env.now in
      let told = should_notify_rate_limit counted.1 in
      either-RoomsHave counted.0
        (handle_message-RoomsHave {s = set_rates s c counted.1} c request_id q
          (record { at = h.at }))
        (either-RoomsHave told.0
          (send_error-RoomsHave env {s = set_rates s c told.1} c _ _ (record { at = h.at }))
          (record { at = h.at }))

connect-RoomsHave :
    {P : ℕ → Room → Type 0} (env : Env) {s : Server} (c : ℕ) (tier : UaTier)
    (policy : Option UaPolicy) (source : Bytes)
    → RoomsHave P s
    → RoomsHave P (connect env s c tier policy source)
unfolding connect
connect-RoomsHave env {s} c tier policy source h = either-RoomsHave s.shutting_down h (
    either-RoomsHave (leb max_clients (length s.clients)) h (
      either-RoomsHave (not (acquire_source s.sources source).0) h
        (either-RoomsHave (tier_beq tier block) h (record { at = h.at }))))

notify_from-RoomsHave :
    {P : ℕ → Room → Type 0} (env : Env) (clients : List ℕ) {s : Server}
    → RoomsHave P s
    → RoomsHave P (notify_from env s clients)
unfolding notify_from
notify_from-RoomsHave env [] h = h
notify_from-RoomsHave env (c ∷ rest) {s} h = notify_from-RoomsHave env rest (
    either-RoomsHave (has_feature s c feature_server_restarting)
      (send_message-RoomsHave env c restart_notice h) h)

drain_from-RoomsHave :
    {P : ℕ → Room → Type 0} (clients : List ℕ) {s : Server}
    → RoomsHave P s
    → RoomsHave P (drain_from s clients)
unfolding drain_from
drain_from-RoomsHave [] h = h
drain_from-RoomsHave (c ∷ rest) h = drain_from-RoomsHave rest (record { at = h.at })

-- A property of rooms that withstands the operations on rooms holds of every room after any event, if it
-- does before.
pub step-RoomsHave :
    {P : ℕ → Room → Type 0}
    → IsClosed P
    → (s : Server) (e : Env × Event) → RoomsHave P s
    → RoomsHave P (step s e)
unfolding step announce_restart drain_clients
step-RoomsHave k s (env, connection c tier policy source) h =
    connect-RoomsHave env c tier policy source h
step-RoomsHave k s (env, message c request_id q) h = read_message-RoomsHave k env c request_id q h
step-RoomsHave k s (env, disconnect c) h = record { at = (remove_client-RoomsHave k env c h).at }
step-RoomsHave k s (env, sessions_tick) h = sessions_tick-RoomsHave k env h
step-RoomsHave k s (env, rooms_tick) h = rooms_tick-RoomsHave k env h
step-RoomsHave k s (env, failover_tick) h = failover_tick-RoomsHave k env h
step-RoomsHave k s (env, restart_signal) h =
    notify_from-RoomsHave env s.clients (record { at = h.at })
step-RoomsHave k s (env, drain_signal) h = drain_from-RoomsHave s.clients h

-- The same after any sequence of events.
pub run-RoomsHave :
    {P : ℕ → Room → Type 0}
    → IsClosed P
    → (events : List (Env × Event)) (s : Server) → RoomsHave P s
    → RoomsHave P (run s events)
unfolding run
run-RoomsHave k [] s h = h
run-RoomsHave k (e ∷ rest) s h = run-RoomsHave k rest (step s e) (step-RoomsHave k s e h)
