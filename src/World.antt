-- ===== src/World.antt =====
-- The state of the server: server.go's Server, Room and Session, and client.go's Client. A pointer is
-- a number, and the objects live on heaps. Go's Client is two records, what a client is and what waits
-- to be written to it (with what client.go guards by the same lock).
pub mod Boxes
use metroserver.Prelude.{
  ℕ, ◌+◌, Bool, true, false, not, ◌&&◌, ◌||◌, Option, none, some, List, [], ◌∷◌, ◌++◌, map, ltb,
  leb, if◌then◌else◌, length, filter, ℤ, Bytes, nat_eq, bytes_eq_instance, ◌==◌, Map,
}
use metroserver.Limits.{max_queued_bytes, send_queue_size, pong_queue_size, sync_response_interval}
use metroserver.Protocol.{TrackInfo, UserInfo, RoomState, PongPayload, Message, error, pong}
use metroserver.Policy.{UaTier, allow, tier_beq, UaPolicy, rewrite_for_ua_tier}

-- What the writer of a connection sends: a message, its request ID and its size on the wire.
pub record Outgoing : Type 0 where
  pub message : Message
  pub request_id : ℕ
  pub size : ℕ

pub record Outbox : Type 0 where
  pub closed : Bool
  pub severed : Bool
  pub close_code : ℕ
  pub close_reason : Bytes
  pub send : List Outgoing
  pub queued_bytes : ℕ
  pub pongs : List Outgoing
  pub request_id : ℕ
  pub replied : Bool
  pub last_sync_response : Option ℕ

pub record Client : Type 0 where
  pub id : Bytes
  pub username : Bytes
  pub session_token : Bytes
  pub room : Option ℕ
  pub pending_room : Option ℕ
  pub affiliation_started : Bool
  pub capabilities_set : Bool
  pub compression : Bool
  pub features : List Bytes
  pub ua_tier : UaTier
  pub policy : Option UaPolicy
  pub source : Bytes
  pub rtt_ms : ℕ

pub record Session : Type 0 where
  pub user_id : Bytes
  pub username : Bytes
  pub room_code : Bytes
  pub is_host : Bool
  pub disconnect_at : ℕ
  pub claimed : Bool

pub record Suggestion : Type 0 where
  pub id : Bytes
  pub from_user_id : Bytes
  pub from_username : Bytes
  pub track : Option TrackInfo

pub record Room : Type 0 where
  pub code : Bytes
  pub host : Option ℕ
  pub clients : Map Bytes ℕ
  pub pending_joins : Map Bytes ℕ
  pub pending_suggestions : Map Bytes Suggestion
  pub disconnected_users : Map Bytes ℕ
  pub state : RoomState
  pub host_disconnected_at : Option ℕ
  pub empty_since : Option ℕ
  pub owner_id : Bytes
  pub last_host_sequence : ℕ
  pub track_revision : ℕ
  pub pending_notices : Map Bytes (List Message)

-- The messages of a client in the current window (Client's rateWindowStart, rateMessageCount and
-- rateLimitNotified).
pub record RateWindow : Type 0 where
  pub start : Option ℕ
  pub count : ℕ
  pub notified : Bool

abbrev pub fresh_window : RateWindow
fresh_window = record { start = none; count = 0; notified = false }

pub record SourceWindow : Type 0 where
  pub start : ℕ
  pub count : ℕ

pub record Server : Type 0 where
  pub rooms : Map Bytes ℕ
  pub sessions : Map Bytes ℕ
  pub clients : List ℕ
  pub sources : Map Bytes ℕ
  pub room_creates : Map Bytes SourceWindow
  pub start_time : ℕ
  pub shutting_down : Bool
  pub client_at : ℕ → Client
  pub outbox_at : ℕ → Outbox
  pub rates_at : ℕ → RateWindow
  pub room_at : ℕ → Room
  pub session_at : ℕ → Session
  pub next_room : ℕ
  pub next_session : ℕ

-- What one event takes from outside the server: the clocks, the random identifiers that it may
-- consume, Unicode's upper case, and the size of an encoded message (none if encoding fails).
pub record Env : Type 0 where
  pub now : ℕ
  pub now_ms : ℤ
  pub fresh_user_id : Bytes
  pub fresh_token : Bytes
  pub fresh_suggestion_id : Bytes
  pub room_codes : List Bytes
  pub to_upper : Bytes → Bytes
  pub encoded_size : Bool → Message → ℕ → Option ℕ

abbrev pub update {ℓ} : {A : Type ℓ} → (ℕ → A) → ℕ → A → ℕ → A
update f k v j = if k == j then v else f j

abbrev pub set_client : Server → ℕ → Client → Server
set_client s c v = record s { client_at = update s.client_at c v }

abbrev pub set_outbox : Server → ℕ → Outbox → Server
set_outbox s c v = record s { outbox_at = update s.outbox_at c v }

abbrev pub set_rates : Server → ℕ → RateWindow → Server
set_rates s c v = record s { rates_at = update s.rates_at c v }

abbrev pub set_room : Server → ℕ → Room → Server
set_room s r v = record s { room_at = update s.room_at r v }

abbrev pub set_session : Server → ℕ → Session → Server
set_session s n v = record s { session_at = update s.session_at n v }

-- A pointer comparison.
unfoldable pub points_to : Option ℕ → ℕ → Bool
points_to none r = false
points_to (some q) r = q == r

abbrev pub is_some {ℓ} : {A : Type ℓ} → Option A → Bool
is_some none = false
is_some (some a) = true

unfoldable pub has_name : List Bytes → Bytes → Bool
has_name [] name = false
has_name (x ∷ rest) name = x == name || has_name rest name

abbrev pub has_feature : Server → ℕ → Bytes → Bool
has_feature s c name = has_name (s.client_at c).features name

-- canHostClient, at a client that is not nil
abbrev pub can_host_client : Server → ℕ → Bool
can_host_client s c = tier_beq (s.client_at c).ua_tier allow

-- clearRoom: a compare-and-swap.
unfoldable pub clear_room : ℕ → Client → Client
clear_room r client = if points_to client.room r then record client { room = none } else client

unfoldable pub clear_pending_room : ℕ → Client → Client
clear_pending_room r client =
    if points_to client.pending_room r then record client { pending_room = none } else client

-- trySetRoom succeeds exactly if the client is in no room, and marks the affiliation in either case.
unfoldable pub try_set_room : ℕ → Client → Client
try_set_room r client = record client {
  affiliation_started = true;
  room = elim client.room [ none ↦ some r | some q ↦ some q ];
}

abbrev pub apply_client : Server → ℕ → (Client → Client) → Server
apply_client s c f = set_client s c (f (s.client_at c))

-- sendEncodedMessage: a client that cannot take the message is closed.
unfoldable pub push_outgoing : Outbox → Outgoing → Outbox
push_outgoing o m =
    if o.closed
    then o
    else if leb (o.queued_bytes + m.size) max_queued_bytes && ltb (length o.send) send_queue_size
    then record o { send = o.send ++ m ∷ []; queued_bytes = o.queued_bytes + m.size }
    else record o { closed = true; severed = true }

-- queuePong, for its client: the small queue drops what it cannot take. The sizes of pongs count for nothing.
abbrev pub push_pong : Outbox → PongPayload → Outbox
push_pong box payload =
    let o = record box { replied = true } in
    if ltb (length o.pongs) pong_queue_size
    then record o {
      pongs =
          o.pongs ++ record { message = pong payload; request_id = o.request_id; size = 0 } ∷ [];
    }
    else o

-- rewritePayload
unfoldable pub rewrite_payload : Client → Message → Message
rewrite_payload client m = elim client.policy [
  | none ↦ m
  | some policy ↦ rewrite_for_ua_tier client.ua_tier policy.advert_title m
]

module _ (env : Env) where
  -- Encoding and queueing; a message that cannot be encoded is dropped.
  unfoldable pub post : Client → Message → ℕ → Outbox → Outbox
  post client m request_id o = elim (env.encoded_size client.compression m request_id) [
    | none ↦ o
    | some size ↦ push_outgoing o (record { message = m; request_id = request_id; size = size })
  ]

  unfoldable pub send_message : Server → ℕ → Message → Server
  send_message s c m =
      set_outbox s c (post (s.client_at c) (rewrite_payload (s.client_at c) m) 0 (s.outbox_at c))

  unfoldable pub reply : Server → ℕ → Message → Server
  reply s c m = set_outbox s c (
      post (s.client_at c) (rewrite_payload (s.client_at c) m) (s.outbox_at c).request_id
        (record (s.outbox_at c) { replied = true }))

  unfoldable pub send_error : Server → ℕ → Bytes → Bytes → Server
  unfolding reply
  send_error s c code message = reply s c (error (record { code = code; message = message }))

  -- queuePong
  unfoldable pub queue_pong : Server → ℕ → PongPayload → Server
  queue_pong s c payload = set_outbox s c (push_pong (s.outbox_at c) payload)

  -- sendMessageToClients encodes once for each tier and each compression setting; the cache holds
  -- what it has encoded.
  abbrev Cache : Type 0
  Cache = List (UaTier × Bool × Outgoing)

  cached : Cache → Client → Option Outgoing
  cached [] client = none
  cached ((tier, compressed, m) ∷ rest) client =
      if tier_beq tier client.ua_tier
        && (if compressed then client.compression else not client.compression)
      then some m
      else cached rest client

  broadcast_from : Server → Cache → List ℕ → Message → (ℕ → Outbox) → ℕ → Outbox
  unfolding cached
  broadcast_from s cache [] m boxes = boxes
  broadcast_from s cache (c ∷ rest) m boxes =
      let client = s.client_at c in
      elim (cached cache client) [
        | some out ↦ broadcast_from s cache rest m (update boxes c (push_outgoing (boxes c) out))
        | none ↦ elim (env.encoded_size client.compression (rewrite_payload client m) 0) [
          | none ↦ boxes
          | some size ↦
              let out : Outgoing = record {
                message = rewrite_payload client m;
                request_id = 0;
                size = size;
              } in
              broadcast_from s ((client.ua_tier, client.compression, out) ∷ cache) rest m
                (update boxes c (push_outgoing (boxes c) out))
        ]
      ]

  unfoldable pub send_message_to_clients : Server → List ℕ → Message → Server
  unfolding broadcast_from
  send_message_to_clients s clients m = record s {
    outbox_at = broadcast_from s [] clients m s.outbox_at;
  }

  -- Several messages to one client, in order.
  post_all : Client → List Message → Outbox → Outbox
  post_all client [] o = o
  post_all client (m ∷ rest) o = post_all client rest (post client (rewrite_payload client m) 0 o)

  unfoldable pub send_all : Server → ℕ → List Message → Server
  unfolding post_all
  send_all s c messages = set_outbox s c (post_all (s.client_at c) messages (s.outbox_at c))

  -- allowSyncResponse
  unfoldable pub allow_sync_response : Outbox → Bool × Outbox
  allow_sync_response o =
      let early : Bool = elim o.last_sync_response [
        | none ↦ false
        | some last ↦ ltb env.now (last + sync_response_interval)
      ] in
      if o.closed || leb send_queue_size (length o.send)
      then (false, o)
      else if early
      then (false, o)
      else (true, record o { last_sync_response = some env.now })

-- closeSendWith
unfoldable pub close_send_with : Outbox → ℕ → Bytes → Outbox
close_send_with o code reason =
    if o.closed then o else record o { closed = true; close_code = code; close_reason = reason }

-- roomClientsLocked
abbrev pub room_clients : Room → List ℕ
room_clients room = map (λ e. e.1) room.clients

-- roomMembersLocked
abbrev pub room_members : Room → ℕ
room_members room = length room.clients + length room.disconnected_users

-- removeUserSuggestionsLocked
unfoldable pub remove_user_suggestions : Room → Bytes → Room
remove_user_suggestions room user_id = record room {
  pending_suggestions = filter (λ e. not (e.1.from_user_id == user_id)) room.pending_suggestions;
}

-- withoutUser
unfoldable pub without_user : List UserInfo → Bytes → List UserInfo
without_user users user_id = filter (λ u. not (u.user_id == user_id)) users

-- The loop that marks the first entry of a user.
unfoldable pub set_connected : List UserInfo → Bytes → Bool → List UserInfo
set_connected [] user_id connected = []
set_connected (u ∷ rest) user_id connected =
    if u.user_id == user_id
    then record u { is_connected = connected } ∷ rest
    else u ∷ set_connected rest user_id connected
