-- ===== src/Dispatch/Closure.antt =====
-- The sends of internal/server/client.go and the host announcements of hosts.go keep whatever holds of
-- every room.
use metroserver.Prelude.{
  Bool, if◌then◌else◌, ℕ, subst, Option, none, some, List, [], ◌∷◌, if_keeps, Bytes, nat_eq,
  bytes_eq_instance, ◌==◌, ==-iff, Map,
}
use metroserver.Protocol.{
  RoomState, UserPayload, HostChangedPayload, SuggestionReceivedPayload, Message,
}
use metroserver.World.{
  Env, Server, Room, Client, Outbox, set_outbox, set_room, apply_client, send_message, reply,
  send_error, send_message_to_clients, send_all,
}
use metroserver.Hosts.{
  HostChange, deliver_host_change, dismiss_all, announce_host, replay_host_work,
}
use metroserver.Lifecycle.{is_served_plainly, send_policy_queue_snapshot}
use metroserver.Protocol.{PongPayload}
use metroserver.World.{queue_pong}

-- A property of every room on the heap.
pub record RoomsHave (P : ℕ → Room → Type 0) (s : Server) : Type 0 where
  pub at : (r : ℕ) → P r (s.room_at r)

pub either-RoomsHave :
    {P : ℕ → Room → Type 0} (b : Bool) {x y : Server}
    → RoomsHave P x
    → RoomsHave P y
    → RoomsHave P (if b then x else y)
either-RoomsHave {P} b hx hy = if_keeps (RoomsHave P) b (λ _. hx) (λ _. hy)

module _ {P : ℕ → Room → Type 0} {s : Server} where
  pub set_room-RoomsHave : (r : ℕ) (v : Room) → RoomsHave P s → P r v → RoomsHave P (set_room s r v)
  set_room-RoomsHave r v h k = record {
    at = λ q. if_keeps (P q) (r == q) (λ e. subst (λ t. P t v) ((==-iff r q).0 e) k) (λ _. h.at q);
  }

  -- Sending and the changes of a client touch no room.
  pub apply_client-RoomsHave :
      (c : ℕ) (f : Client → Client) → RoomsHave P s → RoomsHave P (apply_client s c f)
  apply_client-RoomsHave c f h = record { at = h.at }

  pub set_outbox-RoomsHave : (c : ℕ) (o : Outbox) → RoomsHave P s → RoomsHave P (set_outbox s c o)
  set_outbox-RoomsHave c o h = record { at = h.at }

module _ {P : ℕ → Room → Type 0} (env : Env) {s : Server} where
  pub send_error-RoomsHave :
      (c : ℕ) (code text : Bytes) → RoomsHave P s → RoomsHave P (send_error env s c code text)
  unfolding send_error
  send_error-RoomsHave c code text h = record { at = h.at }

  pub send_message-RoomsHave :
      (c : ℕ) (m : Message) → RoomsHave P s → RoomsHave P (send_message env s c m)
  unfolding send_message
  send_message-RoomsHave c m h = record { at = h.at }

  pub reply-RoomsHave : (c : ℕ) (m : Message) → RoomsHave P s → RoomsHave P (reply env s c m)
  unfolding reply
  reply-RoomsHave c m h = record { at = h.at }

  pub send_all-RoomsHave :
      (c : ℕ) (ms : List Message) → RoomsHave P s → RoomsHave P (send_all env s c ms)
  unfolding send_all
  send_all-RoomsHave c ms h = record { at = h.at }

  pub send_message_to_clients-RoomsHave :
      (cs : List ℕ) (m : Message) → RoomsHave P s → RoomsHave P (send_message_to_clients env s cs m)
  unfolding send_message_to_clients
  send_message_to_clients-RoomsHave cs m h = record { at = h.at }

  pub queue_pong-RoomsHave :
      (c : ℕ) (p : PongPayload) → RoomsHave P s → RoomsHave P (queue_pong env s c p)
  unfolding queue_pong
  queue_pong-RoomsHave c p h = record { at = h.at }

  pub policy_snapshot-RoomsHave :
      (c : ℕ) (state : RoomState)
      → RoomsHave P s
      → RoomsHave P (send_policy_queue_snapshot env s c state)
  unfolding send_policy_queue_snapshot send_message
  policy_snapshot-RoomsHave c state h =
      if_keeps (RoomsHave P) (is_served_plainly s c) (λ _. h) (λ _. record { at = h.at })

-- The recursion of dismiss_all.
pub dismiss_all-RoomsHave :
    {P : ℕ → Room → Type 0} (env : Env) (release : Client → Client) (m : Message)
    (members : Map Bytes ℕ) {s : Server}
    → RoomsHave P s
    → RoomsHave P (dismiss_all env release m s members)
unfolding dismiss_all
dismiss_all-RoomsHave env release m [] h = h
dismiss_all-RoomsHave env release m ((id, c) ∷ rest) h =
    dismiss_all-RoomsHave env release m rest
      (apply_client-RoomsHave c release (send_message-RoomsHave env c m h))

module _ {P : ℕ → Room → Type 0} (env : Env) {s : Server} where
  pub announce_host-RoomsHave :
      (cs : List ℕ) (announce : Option HostChangedPayload)
      → RoomsHave P s
      → RoomsHave P (announce_host env s cs announce)
  unfolding announce_host
  announce_host-RoomsHave cs none h = h
  announce_host-RoomsHave cs (some a) h = send_message_to_clients-RoomsHave env cs _ h

  pub replay_host_work-RoomsHave :
      (host : Option ℕ) (joins : List UserPayload) (suggestions : List SuggestionReceivedPayload)
      → RoomsHave P s
      → RoomsHave P (replay_host_work env s host joins suggestions)
  unfolding replay_host_work
  replay_host_work-RoomsHave none joins suggestions h = h
  replay_host_work-RoomsHave (some c) joins suggestions h =
      send_all-RoomsHave env c _ (send_all-RoomsHave env c _ h)

pub deliver_host_change-RoomsHave :
    {P : ℕ → Room → Type 0} (env : Env) {s : Server} (cs : List ℕ) (change : Option HostChange)
    → RoomsHave P s
    → RoomsHave P (deliver_host_change env s cs change)
unfolding deliver_host_change
deliver_host_change-RoomsHave env cs none h = h
deliver_host_change-RoomsHave env cs (some ch) h =
    replay_host_work-RoomsHave env ch.host ch.joins ch.suggestions
      (announce_host-RoomsHave env cs ch.announce h)
