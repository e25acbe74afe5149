-- ===== src/Writer/Delivery.antt =====
-- What a connection's writer delivers: what was queued, in order.
use metroserver.Prelude.{
  ◌+◌, ◌≡◌, inl, inr, refl, sym, ap, ◌∙◌, Bool, not, ◌&&◌, Option, none, some, List, [], ◌∷◌, ◌++◌,
  length, append-nil, leb, ltb, if◌then◌else◌, if_keeps, some_keeps, Bool-cases, nat_eq,
  bytes_eq_instance,
}
use metroserver.Limits.{max_queued_bytes, send_queue_size, pong_queue_size}
use metroserver.World.{Outgoing, Outbox, Env, push_outgoing, close_send_with}
use metroserver.Writer.{
  Frame, message_frame, pong_frame, ping_frame, close_frame, Stage, selecting, finishing, holding,
  delivering, ended, Writer, Ready, pong_ready, tick_ready, onward_ready, stamp, in_hand, if_taken,
  write, receive_next, prepare, deliver, finish, listens, after_pongs, onward, write_pong,
  write_first_pong, pump_step, Move, queueing, ponging, closing, stepping, move, move_all,
}

-- The messages among the frames, without pongs, pings and close frames.
abbrev pub messages : List Frame → List Outgoing
messages [] = []
messages (message_frame m ∷ rest) = m ∷ messages rest
messages (pong_frame p ∷ rest) = messages rest
messages (ping_frame ∷ rest) = messages rest
messages (close_frame code reason ∷ rest) = messages rest

pub messages-append : (xs ys : List Frame) → messages (xs ++ ys) ≡ messages xs ++ messages ys
messages-append [] ys = refl
messages-append (message_frame m ∷ xs) ys = ap (◌∷◌ m) (messages-append xs ys)
messages-append (pong_frame p ∷ xs) ys = messages-append xs ys
messages-append (ping_frame ∷ xs) ys = messages-append xs ys
messages-append (close_frame code reason ∷ xs) ys = messages-append xs ys

append_assoc {ℓ} : {A : Type ℓ} (xs ys zs : List A) → (xs ++ ys) ++ zs ≡ xs ++ (ys ++ zs)
append_assoc [] ys zs = refl
append_assoc (x ∷ xs) ys zs = ap (◌∷◌ x) (append_assoc xs ys zs)

abbrev pub listed : Option Outgoing → List Outgoing
listed none = []
listed (some m) = m ∷ []

-- What was delivered, what is in hand and what waits.
abbrev pub in_order : Writer → List Outgoing
in_order w = messages w.written ++ (listed (in_hand w.stage) ++ w.outbox.send)

-- The message that a move adds to the queue: one that fits into an open queue.
abbrev pub accepted : Move → Writer → List Outgoing
accepted (queueing m) w =
    if w.outbox.closed
    then []
    else if leb (w.outbox.queued_bytes + m.size) max_queued_bytes
        && ltb (length w.outbox.send) send_queue_size
    then m ∷ []
    else []
accepted (ponging p) w = []
accepted (closing code reason) w = []
accepted (stepping ready ok) w = []

-- What holds of the state after a step that the socket takes, and of one that ends the writer, holds of both.
pub if_taken_keeps {κ} :
    (P : Writer → Type κ) (ok : Bool) (w next : Writer)
    → P next
    → P (record w { stage = ended (in_hand w.stage) })
    → P (if_taken ok w next)
unfolding if_taken
if_taken_keeps P ok w next there lost =
    if_keeps P (ok && not w.outbox.severed) (λ _. there) (λ _. lost)

write-in_order :
    (ok : Bool) (frame : Frame) (w : Writer)
    → messages (frame ∷ []) ≡ []
    → in_order (write ok frame w) ≡ in_order w
unfolding write in_hand
write-in_order ok frame w h =
    if_taken_keeps (λ v. in_order v ≡ in_order w) ok w _
      (rw (messages-append w.written (frame ∷ []), h, append-nil (messages w.written))) refl

receive_next-in_order : (w : Writer) → w.stage ≡ selecting → in_order (receive_next w) ≡ in_order w
unfolding receive_next in_hand
receive_next-in_order w h = next w.outbox.send refl
  where
    next : (queue : List Outgoing) → w.outbox.send ≡ queue → in_order (receive_next w) ≡ in_order w
    next [] e =
        rw (e, h)
          (if_keeps (λ v. in_order v ≡ messages w.written ++ []) w.outbox.closed (λ _. refl)
            (λ _. refl))
    next (m ∷ rest) e = rw (e, h) refl

pub after_pongs_keeps {κ} :
    (P : Writer → Type κ) (w next : Writer) → P next → P w → P (after_pongs w next)
unfolding after_pongs
after_pongs_keeps P w next there here =
    elim w.outbox.pongs as (λ ps. P (elim ps [ [] ↦ next | p ∷ rest ↦ w ])) [
      | [] ↦ there
      | p ∷ rest ↦ here
    ]

pub onward-in_order :
    (stage : Stage) (ok : Bool) (w : Writer)
    → w.stage ≡ stage
    → in_order (onward stage ok w) ≡ in_order w
unfolding onward prepare deliver finish in_hand
onward-in_order selecting ok w h = receive_next-in_order w h
onward-in_order finishing ok w h =
    after_pongs_keeps (λ v. in_order v ≡ in_order w) w _
      (if_taken_keeps (λ v. in_order v ≡ in_order w) ok w _
        (rw (
          h,
          messages-append w.written (close_frame w.outbox.close_code w.outbox.close_reason ∷ []),
          append-nil (messages w.written),
        ))
        refl)
      refl
onward-in_order (holding m) ok w h =
    after_pongs_keeps (λ v. in_order v ≡ in_order w) w _
      (if_taken_keeps (λ v. in_order v ≡ in_order w) ok w _ (rw h) refl) refl
onward-in_order (delivering m) ok w h =
    if_taken_keeps (λ v. in_order v ≡ in_order w) ok w _
      (rw (h, messages-append w.written (message_frame m ∷ []))
        (append_assoc (messages w.written) (m ∷ []) w.outbox.send))
      refl
onward-in_order (ended o) ok w h = refl

module _ (env : Env) (compression : Bool) where
  write_pong-in_order :
      (ok : Bool) (p : Outgoing) (w : Writer)
      → in_order (write_pong env compression ok p w) ≡ in_order w
  unfolding write_pong
  write_pong-in_order ok p w =
      some_keeps (λ v. in_order v ≡ in_order w)
        (env.encoded_size compression (stamp env p.message) p.request_id) (λ _. refl)
        (λ size _. write-in_order ok _ w refl)

  write_first_pong-in_order :
      (ok : Bool) (w : Writer) → in_order (write_first_pong env compression ok w) ≡ in_order w
  unfolding write_first_pong
  write_first_pong-in_order ok w = next w.outbox.pongs refl
    where
      next :
          (ps : List Outgoing)
          → w.outbox.pongs ≡ ps
          → in_order (write_first_pong env compression ok w) ≡ in_order w
      next [] e = rw (write_first_pong, e)
      next (p ∷ ps) e =
          rw (write_first_pong, e)
            (write_pong-in_order ok p (record w { outbox = record w.outbox { pongs = ps } }))

  pump_step-in_order :
      (ready : Ready) (ok : Bool) (w : Writer)
      → in_order (pump_step env compression ready ok w) ≡ in_order w
  unfolding pump_step
  pump_step-in_order pong_ready ok w =
      if_keeps (λ v. in_order v ≡ in_order w) (listens w.stage)
        (λ _. write_first_pong-in_order ok w) (λ _. refl)
  pump_step-in_order tick_ready ok w =
      if_keeps (λ v. in_order v ≡ in_order w) (listens w.stage)
        (λ _. write-in_order ok ping_frame w refl) (λ _. refl)
  pump_step-in_order onward_ready ok w = onward-in_order w.stage ok w refl

  move-in_order :
      (m : Move) (w : Writer) → in_order (move env compression m w) ≡ in_order w ++ accepted m w
  unfolding move push_outgoing close_send_with
  move-in_order (queueing m) w = elim (Bool-cases w.outbox.closed) [
    | inl y ↦ rw y (sym (append-nil (in_order w)))
    | inr n ↦
        elim (Bool-cases (
          leb (w.outbox.queued_bytes + m.size) max_queued_bytes
          && ltb (length w.outbox.send) send_queue_size)) [
            | inl fits ↦
                rw (n, fits)
                  (sym (
                    append_assoc (messages w.written) (listed (in_hand w.stage) ++ w.outbox.send)
                      (m ∷ [])
                    ∙ ap (◌++◌ (messages w.written))
                        (append_assoc (listed (in_hand w.stage)) w.outbox.send (m ∷ []))))
            | inr full ↦ rw (n, full) (sym (append-nil (in_order w)))
          ]
  ]
  move-in_order (ponging p) w =
      if_keeps
        (λ (o : Outbox).
          messages w.written ++ (listed (in_hand w.stage) ++ o.send) ≡ in_order w ++ [])
        (ltb (length w.outbox.pongs) pong_queue_size) (λ _. sym (append-nil (in_order w)))
        (λ _. sym (append-nil (in_order w)))
  move-in_order (closing code reason) w =
      if_keeps
        (λ (o : Outbox).
          messages w.written ++ (listed (in_hand w.stage) ++ o.send) ≡ in_order w ++ [])
        w.outbox.closed (λ _. sym (append-nil (in_order w))) (λ _. sym (append-nil (in_order w)))
  move-in_order (stepping ready ok) w =
      pump_step-in_order ready ok w ∙ sym (append-nil (in_order w))

  -- The messages that are accepted in a sequence of moves.
  unfoldable pub accepted_all : List Move → Writer → List Outgoing
  accepted_all [] w = []
  accepted_all (m ∷ rest) w = accepted m w ++ accepted_all rest (move env compression m w)

  -- Whatever happens to a connection, in any order: messages and pongs queued, the queue closed, steps of the writer
  -- that the socket takes or not. What was delivered, then the one message that the writer has in hand if any, then
  -- what waits: these are, in order and none lost or doubled, those there were at first and the messages that were
  -- accepted since, which are those that fit into the open queue. Once the writer has returned, the message that it
  -- had in hand is the only one that is neither delivered nor waiting.
  pub move_all-in_order :
      (moves : List Move) (w : Writer)
      → in_order (move_all env compression moves w) ≡ in_order w ++ accepted_all moves w
  unfolding move_all accepted_all
  move_all-in_order [] w = sym (append-nil (in_order w))
  move_all-in_order (m ∷ rest) w =
      move_all-in_order rest (move env compression m w)
      ∙ rw (move-in_order m w)
          (append_assoc (in_order w) (accepted m w) (accepted_all rest (move env compression m w)))
