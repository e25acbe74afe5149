-- ===== src/Writer.antt =====
-- writePump, writePriority, writePing and writePong of internal/server/client.go: what leaves the queues of a
-- connection, and in which order. The writer's way from a receive to the write is cut into its steps, so that what
-- others do to the connection can fall between them.
pub mod Delivery
pub mod Charging
pub mod Progress
pub mod Draining
use metroserver.Prelude.{
  ℕ, zero, suc, ◌+◌, ◌-◌, Bool, true, false, not, ◌&&◌, Option, none, some, List, [], ◌∷◌, ◌++◌,
  Bytes, if◌then◌else◌,
}
use metroserver.Protocol.{Message, PongPayload, pong}
use metroserver.World.{Outgoing, Outbox, Env, push_outgoing, push_pong, close_send_with}

-- What is written to the socket. A close frame with the code 0 has no body.
pub data Frame : Type 0 where
  message_frame pong_frame : Outgoing → Frame
  ping_frame : Frame
  close_frame : ℕ → Bytes → Frame

-- Where the writer stands: at the select of writePump; in writePriority, with a message that it has received or knowing
-- that the queue is closed; before the write of a message; or returned, with the message that it then had in hand.
pub data Stage : Type 0 where
  selecting finishing : Stage
  holding delivering : Outgoing → Stage
  ended : Option Outgoing → Stage

-- The writer of a connection: its queues, what the socket has taken, and where it stands.
pub record Writer : Type 0 where
  pub outbox : Outbox
  pub written : List Frame
  pub stage : Stage

-- The case that the writer finds ready and takes; the last is the receive from the send queue, the default of
-- writePriority, or the write of the message.
pub data Ready : Type 0 where
  pong_ready tick_ready onward_ready : Ready

-- What happens to a connection: a message or a pong is queued, its queue is closed, or the writer makes a step, in which
-- the socket takes what it is asked for, or not.
pub data Move : Type 0 where
  queueing : Outgoing → Move
  ponging : PongPayload → Move
  closing : ℕ → Bytes → Move
  stepping : Ready → Bool → Move

-- The message that the writer has received and not written.
unfoldable pub in_hand : Stage → Option Outgoing
in_hand selecting = none
in_hand finishing = none
in_hand (holding m) = some m
in_hand (delivering m) = some m
in_hand (ended o) = o

-- The time at which a pong is written is its server_send_time.
abbrev pub stamp : Env → Message → Message
stamp env (pong p) = pong (record p { server_send_time = env.now_ms })
stamp env m = m

-- A deadline or a write that fails, as every one does on a connection that is closed, ends the writer.
unfoldable pub if_taken : Bool → Writer → Writer → Writer
unfolding in_hand
if_taken ok w next =
    if ok && not w.outbox.severed then next else record w { stage = ended (in_hand w.stage) }

unfoldable pub write : Bool → Frame → Writer → Writer
unfolding if_taken
write ok frame w = if_taken ok w (record w { written = w.written ++ frame ∷ [] })

-- The case of the send queue: a message is received, or the news that the queue is closed and empty. An open and empty
-- queue is not ready.
unfoldable pub receive_next : Writer → Writer
receive_next w = elim w.outbox.send [
  | m ∷ rest ↦ record w { outbox = record w.outbox { send = rest }; stage = holding m }
  | [] ↦ if w.outbox.closed then record w { stage = finishing } else w
]

-- After writePriority the deadline is set; then the bytes of the message no longer count.
unfoldable pub prepare : Bool → Outgoing → Writer → Writer
unfolding if_taken
prepare ok m w = if_taken ok w (record w {
  outbox = record w.outbox { queued_bytes = w.outbox.queued_bytes - m.size };
  stage = delivering m;
})

unfoldable pub deliver : Bool → Outgoing → Writer → Writer
unfolding if_taken
deliver ok m w =
    if_taken ok w (record w { written = w.written ++ message_frame m ∷ []; stage = selecting })

-- The close frame is the last one, whether or not the socket takes it.
unfoldable pub finish : Bool → Writer → Writer
unfolding if_taken
finish ok w = if_taken ok w (record w {
  written = w.written ++ close_frame w.outbox.close_code w.outbox.close_reason ∷ [];
  stage = ended none;
})

-- The stages in which the writer waits in a select.
abbrev pub listens : Stage → Bool
listens selecting = true
listens finishing = true
listens (holding m) = true
listens (delivering m) = false
listens (ended o) = false

-- The default of writePriority is taken when no pong waits.
unfoldable pub after_pongs : Writer → Writer → Writer
after_pongs w next = elim w.outbox.pongs [ [] ↦ next | p ∷ ps ↦ w ]

unfoldable pub onward : Stage → Bool → Writer → Writer
unfolding receive_next prepare deliver finish after_pongs
onward selecting ok w = receive_next w
onward finishing ok w = after_pongs w (finish ok w)
onward (holding m) ok w = after_pongs w (prepare ok m w)
onward (delivering m) ok w = deliver ok m w
onward (ended o) ok w = w

module _ (env : Env) (compression : Bool) where
  -- writePong: a pong that does not encode is passed over.
  unfoldable pub write_pong : Bool → Outgoing → Writer → Writer
  unfolding write
  write_pong ok p w = elim (env.encoded_size compression (stamp env p.message) p.request_id) [
    | none ↦ w
    | some size ↦ write ok (pong_frame (record p { message = stamp env p.message; size = size })) w
  ]

  -- The case of the pongs.
  unfoldable pub write_first_pong : Bool → Writer → Writer
  unfolding write_pong
  write_first_pong ok w = elim w.outbox.pongs [
    | [] ↦ w
    | p ∷ ps ↦ write_pong ok p (record w { outbox = record w.outbox { pongs = ps } })
  ]

  -- A step of the writer.
  unfoldable pub pump_step : Ready → Bool → Writer → Writer
  unfolding write_first_pong write onward
  pump_step pong_ready ok w = if listens w.stage then write_first_pong ok w else w
  pump_step tick_ready ok w = if listens w.stage then write ok ping_frame w else w
  pump_step onward_ready ok w = onward w.stage ok w

  unfoldable pub move : Move → Writer → Writer
  unfolding pump_step
  move (queueing m) w = record w { outbox = push_outgoing w.outbox m }
  move (ponging p) w = record w { outbox = push_pong w.outbox p }
  move (closing code reason) w = record w { outbox = close_send_with w.outbox code reason }
  move (stepping ready ok) w = pump_step ready ok w

  unfoldable pub move_all : List Move → Writer → Writer
  unfolding move
  move_all [] w = w
  move_all (m ∷ rest) w = move_all rest (move m w)

  -- So many steps that the socket takes, with the cases that are chosen.
  unfoldable pub drain : (Writer → Ready) → ℕ → Writer → Writer
  unfolding pump_step
  drain choose zero w = w
  drain choose (suc n) w = drain choose n (pump_step (choose w) true w)
