-- ===== src/Shutdown.antt =====
-- announceRestart and drainClients of internal/server/server.go: the end of the server.
pub mod Closing
use metroserver.Prelude.{ℕ, true, List, [], ◌∷◌, pos, bytes, if◌then◌else◌}
use metroserver.Protocol.{Message, server_restarting, feature_server_restarting}
use metroserver.World.{Env, Server, has_feature, set_outbox, send_message, close_send_with}

-- RestartEta in milliseconds, and the notice.
abbrev pub restart_notice : Message
restart_notice =
    server_restarting (record { eta_ms = pos 5000; reason = bytes "Server restarting" })

-- websocket.CloseServiceRestart
abbrev pub close_service_restart : ℕ
close_service_restart = 1012

module _ (env : Env) where
  -- The loop over the clients.
  unfoldable pub notify_from : Server → List ℕ → Server
  notify_from s [] = s
  notify_from s (c ∷ rest) =
      notify_from
        (if has_feature s c feature_server_restarting
          then send_message env s c restart_notice
          else s)
        rest

  unfoldable pub announce_restart : Server → Server
  unfolding notify_from
  announce_restart s = notify_from (record s { shutting_down = true }) s.clients

-- The loop that closes the queues.
unfoldable pub drain_from : Server → List ℕ → Server
drain_from s [] = s
drain_from s (c ∷ rest) =
    drain_from
      (set_outbox s c
        (close_send_with (s.outbox_at c) close_service_restart (bytes "server restarting")))
      rest

-- drainClients up to the wait for the connections to end.
unfoldable pub drain_clients : Server → Server
unfolding drain_from
drain_clients s = drain_from s s.clients
