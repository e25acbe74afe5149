-- ===== src/Writer/Charging.antt =====
-- What a connection's count of queued bytes says.
use metroserver.Prelude.{
  ℕ, ◌+◌, ◌≡◌, ◌≤◌, refl, sym, ap, subst, ◌∙◌, none, Bool, ◌&&◌, Option, List, [], ◌∷◌, ◌++◌,
  length, leb, ltb, leb→le, &&-true, if_keeps, some_keeps, arith, nat_eq, bytes_eq_instance,
}
use metroserver.Limits.{max_queued_bytes, send_queue_size, pong_queue_size}
use metroserver.World.{Outgoing, Outbox, Env, push_outgoing, close_send_with}
use metroserver.Writer.{
  Frame, ping_frame, Stage, selecting, finishing, holding, delivering, ended, Writer, Ready,
  pong_ready, tick_ready, onward_ready, stamp, in_hand, write, receive_next, prepare, deliver,
  finish, listens, onward, write_pong, write_first_pong, pump_step, Move, queueing, ponging,
  closing, stepping, move, move_all,
}
use metroserver.Writer.Delivery.{if_taken_keeps, after_pongs_keeps}

abbrev pub total_size : List Outgoing → ℕ
total_size [] = 0
total_size (m ∷ rest) = m.size + total_size rest

total_size-last :
    (xs : List Outgoing) (m : Outgoing) → total_size (xs ++ m ∷ []) ≡ total_size xs + m.size
total_size-last [] m = omega arith
total_size-last (x ∷ xs) m = omega (arith, total_size-last xs m)

-- The bytes that count are those of the messages that wait, and of one that was received and whose write is not yet
-- prepared. A writer that returned may have left the bytes of the message that it had in hand.
abbrev pub Agrees : Stage → ℕ → ℕ → Type 0
Agrees selecting queued waiting = queued ≡ waiting
Agrees finishing queued waiting = queued ≡ waiting
Agrees (holding m) queued waiting = queued ≡ waiting + m.size
Agrees (delivering m) queued waiting = queued ≡ waiting
Agrees (ended o) queued waiting = waiting ≤ queued

-- The count agrees with what waits, and is within its limit.
abbrev pub IsCharged : Writer → Type 0
IsCharged w =
    Agrees w.stage w.outbox.queued_bytes (total_size w.outbox.send)
    × (w.outbox.queued_bytes ≤ max_queued_bytes)

Agrees-ended :
    (stage : Stage) (o : Option Outgoing) (queued waiting : ℕ)
    → Agrees stage queued waiting
    → Agrees (ended o) queued waiting
Agrees-ended selecting o queued waiting h = omega (arith, h)
Agrees-ended finishing o queued waiting h = omega (arith, h)
Agrees-ended (holding m) o queued waiting h = omega (arith, h)
Agrees-ended (delivering m) o queued waiting h = omega (arith, h)
Agrees-ended (ended p) o queued waiting h = h

Agrees-more :
    (stage : Stage) (queued waiting size : ℕ)
    → Agrees stage queued waiting
    → Agrees stage (queued + size) (waiting + size)
Agrees-more selecting queued waiting size h = omega (arith, h)
Agrees-more finishing queued waiting size h = omega (arith, h)
Agrees-more (holding m) queued waiting size h = omega (arith, h)
Agrees-more (delivering m) queued waiting size h = omega (arith, h)
Agrees-more (ended o) queued waiting size h = omega (arith, h)

-- A writer that returns.
lost-IsCharged :
    (w : Writer) → IsCharged w → IsCharged (record w { stage = ended (in_hand w.stage) })
lost-IsCharged w h = (Agrees-ended w.stage (in_hand w.stage) _ _ h.0, h.1)

write-IsCharged :
    (ok : Bool) (frame : Frame) (w : Writer) → IsCharged w → IsCharged (write ok frame w)
unfolding write
write-IsCharged ok frame w h = if_taken_keeps IsCharged ok w _ h (lost-IsCharged w h)

receive_next-IsCharged :
    (w : Writer) → w.stage ≡ selecting → IsCharged w → IsCharged (receive_next w)
unfolding receive_next
receive_next-IsCharged w h charged = next w.outbox.send refl
  where
    next : (queue : List Outgoing) → w.outbox.send ≡ queue → IsCharged (receive_next w)
    next [] e =
        let count =
          subst (λ st. Agrees st w.outbox.queued_bytes (total_size w.outbox.send)) h charged.0 in
        rw e (
          if_keeps IsCharged w.outbox.closed (λ _. (count ∙ ap total_size e, charged.1))
            (λ _. rw h (count ∙ ap total_size e, charged.1)))
    next (m ∷ rest) e =
        let count =
          subst (λ st. Agrees st w.outbox.queued_bytes (total_size w.outbox.send)) h charged.0 in
        let total = ap total_size e in rw e (omega (arith, count, total), charged.1)

onward-IsCharged :
    (stage : Stage) (ok : Bool) (w : Writer)
    → w.stage ≡ stage
    → IsCharged w
    → IsCharged (onward stage ok w)
unfolding onward prepare deliver finish
onward-IsCharged selecting ok w h charged = receive_next-IsCharged w h charged
onward-IsCharged finishing ok w h charged =
    after_pongs_keeps IsCharged w _
      (if_taken_keeps IsCharged ok w _ (Agrees-ended w.stage none _ _ charged.0, charged.1)
        (lost-IsCharged w charged))
      charged
onward-IsCharged (holding m) ok w h charged =
    let count =
      subst (λ st. Agrees st w.outbox.queued_bytes (total_size w.outbox.send)) h charged.0 in
    after_pongs_keeps IsCharged w _
      (if_taken_keeps IsCharged ok w _ (omega (arith, count), omega (arith, charged.1))
        (lost-IsCharged w charged))
      charged
onward-IsCharged (delivering m) ok w h charged =
    let count =
      subst (λ st. Agrees st w.outbox.queued_bytes (total_size w.outbox.send)) h charged.0 in
    if_taken_keeps IsCharged ok w _ (count, charged.1) (lost-IsCharged w charged)
onward-IsCharged (ended o) ok w h charged = charged

module _ (env : Env) (compression : Bool) where
  write_pong-IsCharged :
      (ok : Bool) (p : Outgoing) (w : Writer)
      → IsCharged w
      → IsCharged (write_pong env compression ok p w)
  unfolding write_pong
  write_pong-IsCharged ok p w h =
      some_keeps IsCharged (env.encoded_size compression (stamp env p.message) p.request_id)
        (λ _. h) (λ size _. write-IsCharged ok _ w h)

  write_first_pong-IsCharged :
      (ok : Bool) (w : Writer) → IsCharged w → IsCharged (write_first_pong env compression ok w)
  unfolding write_first_pong
  write_first_pong-IsCharged ok w h =
      elim w.outbox.pongs
        as (λ ps. IsCharged (elim ps [
          | [] ↦ w
          | p ∷ rest ↦
              write_pong env compression ok p
                (record w { outbox = record w.outbox { pongs = rest } })
        ])) [
          | [] ↦ h
          | p ∷ rest ↦
              write_pong-IsCharged ok p (record w { outbox = record w.outbox { pongs = rest } }) h
        ]

  pump_step-IsCharged :
      (ready : Ready) (ok : Bool) (w : Writer)
      → IsCharged w
      → IsCharged (pump_step env compression ready ok w)
  unfolding pump_step
  pump_step-IsCharged pong_ready ok w h =
      if_keeps IsCharged (listens w.stage) (λ _. write_first_pong-IsCharged ok w h) (λ _. h)
  pump_step-IsCharged tick_ready ok w h =
      if_keeps IsCharged (listens w.stage) (λ _. write-IsCharged ok ping_frame w h) (λ _. h)
  pump_step-IsCharged onward_ready ok w h = onward-IsCharged w.stage ok w refl h

  move-IsCharged : (m : Move) (w : Writer) → IsCharged w → IsCharged (move env compression m w)
  unfolding move push_outgoing close_send_with
  move-IsCharged (queueing m) w h =
      let good : Outbox → Type 0 = λ o. IsCharged (record w { outbox = o }) in
      if_keeps good w.outbox.closed (λ _. h)
        (λ _.
          if_keeps good
            (leb (w.outbox.queued_bytes + m.size) max_queued_bytes
              && ltb (length w.outbox.send) send_queue_size)
            (λ fits. (
              subst (Agrees w.stage (w.outbox.queued_bytes + m.size))
                  (sym (total_size-last w.outbox.send m))
                  (Agrees-more w.stage w.outbox.queued_bytes (total_size w.outbox.send) m.size h.0),
              leb→le _ _
                  (&&-true (leb (w.outbox.queued_bytes + m.size) max_queued_bytes)
                    (ltb (length w.outbox.send) send_queue_size) fits).0,
            ))
            (λ _. h))
  move-IsCharged (ponging p) w h =
      if_keeps (λ (o : Outbox). IsCharged (record w { outbox = o }))
        (ltb (length w.outbox.pongs) pong_queue_size) (λ _. h) (λ _. h)
  move-IsCharged (closing code reason) w h =
      if_keeps (λ (o : Outbox). IsCharged (record w { outbox = o })) w.outbox.closed (λ _. h)
        (λ _. h)
  move-IsCharged (stepping ready ok) w h = pump_step-IsCharged ready ok w h

  -- From a writer whose count of queued bytes agrees with what waits and is within 8 MiB, whatever is queued, written
  -- or fails leads to one where both hold: the count is the sum of the sizes of the messages that wait, with the one
  -- that the writer has received until it is about to write it. Once the writer has returned the count is at least the
  -- sum of what waits.
  pub move_all-IsCharged :
      (moves : List Move) (w : Writer) → IsCharged w → IsCharged (move_all env compression moves w)
  unfolding move_all
  move_all-IsCharged [] w h = h
  move_all-IsCharged (m ∷ rest) w h =
      move_all-IsCharged rest (move env compression m w) (move-IsCharged m w h)
