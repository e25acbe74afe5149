-- ===== src/Hosts.antt =====
-- internal/server/hosts.go: who hosts a room, and how that changes.
pub mod Deputy
use metroserver.Prelude.{
  ℕ, ◌+◌, Bool, true, false, not, ◌&&◌, ◌||◌, Option, none, some, List, [], ◌∷◌, map, ltb, leb,
  if◌then◌else◌, length, filter, Bytes, bytes, nat_eq, bytes_eq_instance, ◌==◌, Map, lookup, delete,
}
use metroserver.Limits.{host_failover_timeout}
use metroserver.Protocol.{
  UserInfo, UserPayload, HostChangedPayload, SuggestionReceivedPayload, Message, join_request,
  join_rejected, host_changed, kicked, suggestion_received,
}
use metroserver.World.{
  Env, Server, Room, Client, Suggestion, set_room, is_some, can_host_client, clear_room,
  clear_pending_room, apply_client, send_message, send_message_to_clients, send_all, room_clients,
}

-- hostChange: what is delivered after a change of host.
pub record HostChange : Type 0 where
  pub host : Option ℕ
  pub announce : Option HostChangedPayload
  pub joins : List UserPayload
  pub suggestions : List SuggestionReceivedPayload

-- The loops of pendingHostWorkLocked.
unfoldable pub pending_join_requests : Server → Map Bytes ℕ → List UserPayload
pending_join_requests s [] = []
pending_join_requests s ((id, c) ∷ rest) =
    let more = pending_join_requests s rest in
    if (s.outbox_at c).closed
    then more
    else record { user_id = (s.client_at c).id; username = (s.client_at c).username } ∷ more

unfoldable pub pending_suggestion_payloads : Map Bytes Suggestion → List SuggestionReceivedPayload
pending_suggestion_payloads suggestions =
    map
      (λ e. record {
        suggestion_id = e.1.id;
        from_user_id = e.1.from_user_id;
        from_username = e.1.from_username;
        track_info = e.1.track;
      })
      suggestions

abbrev pub mark_host : Bytes → UserInfo → UserInfo
mark_host host_id u = record u { is_host = not (host_id == []) && u.user_id == host_id }

abbrev pub host_id_of : Server → Option ℕ → Bytes
host_id_of s none = []
host_id_of s (some c) = (s.client_at c).id

abbrev host_name_of : Server → Option ℕ → Bytes
host_name_of s none = []
host_name_of s (some c) = (s.client_at c).username

-- The room that assignHostLocked leaves.
unfoldable pub seat_host : Server → Room → Option ℕ → Room
seat_host s room host = record room {
  host = host;
  host_disconnected_at = none;
  last_host_sequence = 0;
  state = record room.state {
    host_id = host_id_of s host;
    users = map (mark_host (host_id_of s host)) room.state.users;
  };
}

-- The change that assignHostLocked returns, for the room as it was.
unfoldable pub host_change : Server → Room → Option ℕ → HostChange
host_change s room host =
    let id = host_id_of s host in
    record {
      host = host;
      announce =
          if not (id == []) && not (id == room.state.host_id)
          then some (record { new_host_id = id; new_host_name = host_name_of s host })
          else none;
      joins = if is_some host then pending_join_requests s room.pending_joins else [];
      suggestions =
          if is_some host then pending_suggestion_payloads room.pending_suggestions else [];
    }

module _ (env : Env) where
  -- replayHostWork
  unfoldable pub replay_host_work :
      Server → Option ℕ → List UserPayload → List SuggestionReceivedPayload → Server
  replay_host_work s none joins suggestions = s
  replay_host_work s (some c) joins suggestions =
      send_all env (send_all env s c (map join_request joins)) c
        (map suggestion_received suggestions)

  unfoldable pub announce_host : Server → List ℕ → Option HostChangedPayload → Server
  announce_host s clients none = s
  announce_host s clients (some announce) =
      send_message_to_clients env s clients (host_changed announce)

  -- deliverHostChange; a nil change is none.
  unfoldable pub deliver_host_change : Server → List ℕ → Option HostChange → Server
  unfolding replay_host_work announce_host
  deliver_host_change s clients none = s
  deliver_host_change s clients (some change) =
      replay_host_work (announce_host s clients change.announce) change.host change.joins
        change.suggestions

-- A candidate for the host's seat: the client, its round trip and its user ID.
pub record Candidate : Type 0 where
  pub client : ℕ
  pub rtt : ℕ
  pub id : Bytes

-- The order on Go's strings.
unfoldable pub bytes_ltb : Bytes → Bytes → Bool
bytes_ltb s [] = false
bytes_ltb [] (y ∷ ys) = true
bytes_ltb (x ∷ xs) (y ∷ ys) = ltb x y || x == y && bytes_ltb xs ys

-- `a` goes before `b`.
unfoldable pub beats : Candidate → Candidate → Bool
beats a b = ltb a.rtt b.rtt || a.rtt == b.rtt && bytes_ltb a.id b.id

unfoldable pub better : Candidate → Option Candidate → Candidate
better a none = a
better a (some b) = if beats a b then a else b

-- An unmeasured round trip counts as an hour.
abbrev unknown_rtt : ℕ
unknown_rtt = 3600000

unfoldable pub candidate : Server → Bytes → ℕ → Candidate
candidate s id c = record {
  client = c;
  rtt = if (s.client_at c).rtt_ms == 0 then unknown_rtt else (s.client_at c).rtt_ms;
  id = id;
}

unfoldable pub is_eligible : Server → ℕ → Bool
is_eligible s c = can_host_client s c && not (s.outbox_at c).closed

-- The loop of pickDeputy.
unfoldable pub pick_from : Server → Option Candidate → Map Bytes ℕ → Option Candidate
pick_from s best [] = best
pick_from s best ((id, c) ∷ rest) =
    pick_from s (if is_eligible s c then some (better (candidate s id c) best) else best) rest

unfoldable pub pick_deputy : Server → Map Bytes ℕ → Option ℕ
pick_deputy s clients = elim (pick_from s none clients) [ none ↦ none | some d ↦ some d.client ]

-- hostlessDeadLocked
unfoldable pub hostless_dead : Room → Bool
hostless_dead room =
    room.state.host_id == [] && ltb 0 (length room.clients) && length room.disconnected_users == 0

-- The room has a host who has been away long enough.
unfoldable pub is_failover_due : Env → Room → Bool
is_failover_due env room = elim room.host_disconnected_at [
  | none ↦ false
  | some since ↦ not (room.state.host_id == []) && leb (since + host_failover_timeout) env.now
]

-- The owner keeps their claim through later failovers.
abbrev pub claim_owner : Room → Room
claim_owner room = record room {
  owner_id = if room.owner_id == [] then room.state.host_id else room.owner_id;
}

-- One room of failoverHostsOnce.
unfoldable pub failover_room : Env → Server → ℕ → Server
failover_room env s r =
    let room = s.room_at r in
    if is_failover_due env room
    then elim (pick_deputy s room.clients) [
      | none ↦ s
      | some deputy ↦
          deliver_host_change env (set_room s r (seat_host s (claim_owner room) (some deputy)))
            (room_clients room) (some (host_change s room (some deputy)))
    ]
    else s

unfoldable pub failover_each : Env → Server → Map Bytes ℕ → Server
failover_each env s [] = s
failover_each env s ((code, r) ∷ rest) = failover_each env (failover_room env s r) rest

unfoldable pub failover_hosts_once : Env → Server → Server
unfolding failover_each
failover_hosts_once env s = failover_each env s s.rooms

-- Messages to one client that also end its tie to the room.
unfoldable pub dismiss_all : Env → (Client → Client) → Message → Server → Map Bytes ℕ → Server
dismiss_all env release m s [] = s
dismiss_all env release m s ((id, c) ∷ rest) =
    dismiss_all env release m (apply_client (send_message env s c m) c release) rest

unfoldable pub close_room : Env → Server → ℕ → Bytes → Server
close_room env s r reason =
    let room = s.room_at r in
    let listed : Bool = elim (lookup room.code s.rooms) [ none ↦ false | some q ↦ q == r ] in
    let unlisted = record s {
      rooms = if listed then delete room.code s.rooms else s.rooms;
      sessions = filter (λ e. not ((s.session_at e.1).room_code == room.code)) s.sessions;
    } in
    let told =
      dismiss_all env (clear_pending_room r) (join_rejected reason)
        (dismiss_all env (clear_room r) (kicked reason) unlisted room.clients) room.pending_joins in
    set_room told r
      (record room { clients = []; pending_joins = []; disconnected_users = []; host = none })

abbrev pub no_host_left_reason : Bytes
no_host_left_reason = bytes "Room closed: nobody left can host it"
