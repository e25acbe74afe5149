-- ===== src/Dispatch/Flood.antt =====
-- What a message over the rate limit does (readPump of internal/server/client.go).
use metroserver.Prelude.{
  ℕ, ◌≡◌, refl, sym, ◌∙◌, ◌⊎◌, inl, inr, Bool, true, false, leb, Bool-cases, if_keeps, some_keeps,
  ==-refl, ◌+◌, nat_eq, ◌==◌,
}
use metroserver.Limits.{max_messages_per_window, message_rate_window}
use metroserver.World.{RateWindow, reply, Env, Server, send_error}
use metroserver.Connections.{allow_message, should_notify_rate_limit, begin_window}
use metroserver.Dispatch.{Request, read_message}

-- A client's message has changed nothing but what belongs to the client's own connection: its queue and its window.
pub record IsUntouched (s t : Server) (c : ℕ) : Type 0 where
  pub rooms : t.rooms ≡ s.rooms
  pub sessions : t.sessions ≡ s.sessions
  pub clients : t.clients ≡ s.clients
  pub sources : t.sources ≡ s.sources
  pub room_creates : t.room_creates ≡ s.room_creates
  pub start_time : t.start_time ≡ s.start_time
  pub shutting_down : t.shutting_down ≡ s.shutting_down
  pub next_room : t.next_room ≡ s.next_room
  pub next_session : t.next_session ≡ s.next_session
  pub room_at : t.room_at ≡ s.room_at
  pub session_at : t.session_at ≡ s.session_at
  pub client_at : t.client_at ≡ s.client_at
  pub rates_at : (d : ℕ) → c == d ≡ false → t.rates_at d ≡ s.rates_at d
  pub outbox_at : (d : ℕ) → c == d ≡ false → t.outbox_at d ≡ s.outbox_at d

-- The client is told at most once in a window: it has been told now, and if it had been told already then nothing
-- is sent to it.
pub record IsToldOnce (s t : Server) (c : ℕ) : Type 0 where
  pub told : (t.rates_at c).notified ≡ true
  pub once : ((s.rates_at c).notified ≡ false) ⊎ (t.outbox_at c ≡ s.outbox_at c)

begin_window_notified : (w : RateWindow) (now : ℕ) → (begin_window w now).notified ≡ w.notified
unfolding begin_window
begin_window_notified w now =
    some_keeps (λ (v : RateWindow). v.notified ≡ w.notified) w.start (λ _. refl)
      (λ t e.
        if_keeps (λ (v : RateWindow). v.notified ≡ w.notified) (leb (t + message_rate_window) now)
          (λ _. refl) (λ _. refl))

allow_message_notified :
    (w : RateWindow) (now : ℕ)
    → (allow_message w now).0 ≡ false
    → (allow_message w now).1.notified ≡ w.notified
unfolding allow_message
allow_message_notified w now =
    if_keeps (λ (r : Bool × RateWindow). r.0 ≡ false → r.1.notified ≡ w.notified)
      (leb max_messages_per_window (begin_window w now).count)
      (λ _. λ e. begin_window_notified w now) (λ _. λ e. cc)

-- A message over the rate limit is not read: of the server it changes only the queue and the window of the client
-- that sent it, no room, session, client or table, no counter, and no other client's queue or window. The client is
-- marked as told, and if it had been marked already then nothing is sent to it.
pub read_message_refused :
    (env : Env) (s : Server) (c request_id : ℕ) (q : Request)
    → (allow_message (s.rates_at c) env.now).0 ≡ false
    → IsUntouched s (read_message env s c request_id q) c
      × IsToldOnce s (read_message env s c request_id q) c
unfolding read_message send_error reply should_notify_rate_limit
read_message_refused env s c request_id q e =
    elim (Bool-cases (allow_message (s.rates_at c) env.now).1.notified) [
      | inl y ↦
          rw (e, y)
            (
              record {
                rooms = refl;
                sessions = refl;
                clients = refl;
                sources = refl;
                room_creates = refl;
                start_time = refl;
                shutting_down = refl;
                next_room = refl;
                next_session = refl;
                room_at = refl;
                session_at = refl;
                client_at = refl;
                rates_at = λ d h. rw h;
                outbox_at = λ d h. refl;
              },
              record { told = rw (==-refl c) y; once = inr refl },
            )
      | inr n ↦
          rw (e, n)
            (
              record {
                rooms = refl;
                sessions = refl;
                clients = refl;
                sources = refl;
                room_creates = refl;
                start_time = refl;
                shutting_down = refl;
                next_room = refl;
                next_session = refl;
                room_at = refl;
                session_at = refl;
                client_at = refl;
                rates_at = λ d h. rw h;
                outbox_at = λ d h. rw h;
              },
              record {
                told = rw (==-refl c);
                once = inl (sym (allow_message_notified (s.rates_at c) env.now e) ∙ n);
              },
            )
    ]
