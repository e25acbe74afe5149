-- ===== src/Tests/Ending.antt =====
-- The theorems on the end of the server and on the policy file, at concrete inputs (internal/server/server.go and
-- uapolicy.go).
use metroserver.Prelude.{◌≡◌, ◌⊎◌, refl, inl, true, none, some, [], ◌∷◌, Bytes, bytes, lookup}
use metroserver.Policy.{allow}
use metroserver.World.{Server}
use metroserver.Connections.{new_server, connect, acquire_source}
use metroserver.Shutdown.{announce_restart, drain_clients}
use metroserver.Shutdown.Closing.{IsSameServer, drain_clients-announce_restart}
use metroserver.PolicyFile.{
  default_ua_policy, UaPolicyFile, Parsed, one_policy, load_ua_policy, reload_ua_policy,
}
use metroserver.PolicyFile.Sound.{IsUsable, default_ua_policy-IsUsable, reload_ua_policy-IsUsable}
use metroserver.Tests.{minute_env}

-- A server with one client.
abbrev one_client : Server
one_client = connect (minute_env (bytes "h")) (new_server 0) 4 allow none []

drain_clients-announce_restart_example :
    (((drain_clients (announce_restart (minute_env []) one_client)).outbox_at 4).closed ≡ true)
    × IsSameServer one_client (drain_clients (announce_restart (minute_env []) one_client))
    × (connect
          (minute_env [])
          (drain_clients (announce_restart (minute_env []) one_client))
          5
          allow
          none
          []
        ≡ drain_clients (announce_restart (minute_env []) one_client))
unfolding connect new_server acquire_source lookup
drain_clients-announce_restart_example =
    drain_clients-announce_restart (minute_env []) one_client 4 (minute_env []) 5 allow none []
      (inl refl)

abbrev some_file : UaPolicyFile
some_file = record {
  block = bytes "BadBot" ∷ bytes " " ∷ [];
  rickroll = [];
  advert = bytes "curl" ∷ [];
  advert_title = [];
}

abbrev parse_some : Bytes → Parsed
parse_some content = one_policy some_file

reload_ua_policy-IsUsable_example :
    IsUsable (reload_ua_policy (λ s. s) some parse_some (bytes "policy.json") default_ua_policy)
    × ((load_ua_policy (λ s. s) some parse_some (bytes "policy.json")
          ≡ some
              (reload_ua_policy (λ s. s) some parse_some (bytes "policy.json") default_ua_policy))
        ⊎ ((load_ua_policy (λ s. s) some parse_some (bytes "policy.json") ≡ none)
            × (reload_ua_policy (λ s. s) some parse_some (bytes "policy.json") default_ua_policy
                ≡ default_ua_policy)))
reload_ua_policy-IsUsable_example =
    reload_ua_policy-IsUsable (λ s. s) some parse_some (bytes "policy.json") default_ua_policy
      default_ua_policy-IsUsable
