-- ===== src/Connections.antt =====
-- The connections of internal/server/server.go and client.go: NewServer, the admission of
-- handleWebSocket with the limits by source, and the rate limit of readPump. The slots of the semaphore
-- connectionSlots are the entries of the client table here, since a connection gives back both in one
-- step; an upgrade that fails changes nothing.
pub mod Rates
use metroserver.Prelude.{
  ℕ, ◌+◌, ◌-◌, Bool, true, false, not, Option, none, some, [], ◌∷◌, leb, if◌then◌else◌, length, pos,
  Bytes, nat_eq, bytes_eq_instance, Map, lookup, insert, delete,
}
use metroserver.Limits.{
  max_clients, max_connections_per_source, message_rate_window, max_messages_per_window,
}
use metroserver.Protocol.{float_one}
use metroserver.Policy.{UaTier, allow, block, tier_beq, UaPolicy}
use metroserver.World.{
  Env, Server, Client, Outbox, Room, RateWindow, fresh_window, set_client, set_outbox, set_rates,
}

-- An object that nothing has allocated yet.
unfoldable pub unallocated_room : Room
unallocated_room = record {
  code = [];
  host = none;
  clients = [];
  pending_joins = [];
  pending_suggestions = [];
  disconnected_users = [];
  state = record {
    room_code = [];
    host_id = [];
    users = [];
    current_track = none;
    is_playing = false;
    position = pos 0;
    last_update = pos 0;
    volume = float_one;
    queue = [];
    revision = 0;
    queue_title = [];
  };
  host_disconnected_at = none;
  empty_since = none;
  owner_id = [];
  last_host_sequence = 0;
  track_revision = 0;
  pending_notices = [];
}

-- newClient, with the fields that handleWebSocket sets.
unfoldable pub new_client : Bytes → UaTier → Option UaPolicy → Bytes → Client
new_client id tier policy source = record {
  id = id;
  username = [];
  session_token = [];
  room = none;
  pending_room = none;
  affiliation_started = false;
  capabilities_set = false;
  compression = true;
  features = [];
  ua_tier = tier;
  policy = policy;
  source = source;
  rtt_ms = 0;
}

unfoldable pub new_outbox : Outbox
new_outbox = record {
  closed = false;
  severed = false;
  close_code = 0;
  close_reason = [];
  send = [];
  queued_bytes = 0;
  pongs = [];
  request_id = 0;
  replied = false;
  last_sync_response = none;
}

-- NewServer, at its start time.
unfoldable pub new_server : ℕ → Server
unfolding unallocated_room new_client new_outbox
new_server start_time = record {
  rooms = [];
  sessions = [];
  clients = [];
  sources = [];
  room_creates = [];
  start_time = start_time;
  shutting_down = false;
  client_at = λ c. new_client [] allow none [];
  outbox_at = λ c. new_outbox;
  room_at = λ r. unallocated_room;
  rates_at = λ c. fresh_window;
  session_at = λ n. record {
    user_id = [];
    username = [];
    room_code = [];
    is_host = false;
    disconnect_at = 0;
    claimed = false;
  };
  next_room = 0;
  next_session = 0;
}

-- A missing key counts as 0.
unfoldable pub source_count : Map Bytes ℕ → Bytes → ℕ
source_count sources source = elim (lookup source sources) [ none ↦ 0 | some n ↦ n ]

-- acquireSource, with its answer.
unfoldable pub acquire_source : Map Bytes ℕ → Bytes → Bool × Map Bytes ℕ
unfolding source_count
acquire_source sources source =
    if leb max_connections_per_source (source_count sources source)
    then (false, sources)
    else (true, insert source (source_count sources source + 1) sources)

-- releaseSource
unfoldable pub release_source : Map Bytes ℕ → Bytes → Map Bytes ℕ
unfolding source_count
release_source sources source =
    if leb (source_count sources source) 1
    then delete source sources
    else insert source (source_count sources source - 1) sources

-- handleWebSocket for a connection whose client is to live at the address c. A blocked client is told so
-- and gets no entry.
unfoldable pub connect : Env → Server → ℕ → UaTier → Option UaPolicy → Bytes → Server
unfolding new_client new_outbox
connect env s c tier policy source =
    let (acquired, sources) = acquire_source s.sources source in
    if s.shutting_down
    then s
    else if leb max_clients (length s.clients)
    then s
    else if not acquired
    then s
    else if tier_beq tier block
    then s
    else let opened =
        set_outbox (set_client s c (new_client env.fresh_user_id tier policy source)) c
          new_outbox in
      record (set_rates opened c fresh_window) { clients = c ∷ s.clients; sources = sources }

-- The window that allowMessage counts in.
unfoldable pub begin_window : RateWindow → ℕ → RateWindow
begin_window w now = elim w.start [
  | none ↦ record w { start = some now; count = 0 }
  | some t ↦
      if leb (t + message_rate_window) now then record w { start = some now; count = 0 } else w
]

-- allowMessage, with its answer.
unfoldable pub allow_message : RateWindow → ℕ → Bool × RateWindow
unfolding begin_window
allow_message w now =
    let v = begin_window w now in
    if leb max_messages_per_window v.count
    then (false, v)
    else (true, record v { count = v.count + 1; notified = false })

-- shouldNotifyRateLimit, with its answer.
unfoldable pub should_notify_rate_limit : RateWindow → Bool × RateWindow
should_notify_rate_limit w = if w.notified then (false, w) else (true, record w { notified = true })
