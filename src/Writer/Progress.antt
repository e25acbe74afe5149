-- ===== src/Writer/Progress.antt =====
-- The steps of a connection's writer at a closed queue: each leaves one step less, until the last.
use metroserver.Prelude.{
  ℕ, suc, ◌+◌, ◌*◌, ◌-◌, ◌≡◌, ◌≢◌, refl, sym, ap, subst, ◌∙◌, true, false, not, ◌&&◌, none, List,
  [], ◌∷◌, ◌++◌, length, append-nil, if◌then◌else◌, arith, nat_eq, bytes_eq_instance,
}
use metroserver.World.{Outgoing}
use metroserver.Writer.{
  Frame, close_frame, Stage, selecting, finishing, holding, delivering, ended, Writer, Ready,
  pong_ready, tick_ready, onward_ready, in_hand, if_taken, receive_next, prepare, deliver, finish,
  listens, after_pongs, onward,
}
use metroserver.Writer.Delivery.{messages, listed, in_order, onward-in_order}

-- The steps that are left at a closed queue, heartbeats apart: one for each pong; three for each message, to receive it,
-- to prepare its write and to write it; and two for the close frame.
abbrev pub remaining_at : Stage → ℕ → ℕ → ℕ
remaining_at selecting pongs queue = pongs + 3 * queue + 2
remaining_at finishing pongs queue = pongs + 1
remaining_at (holding m) pongs queue = pongs + 3 * queue + 4
remaining_at (delivering m) pongs queue = pongs + 3 * queue + 3
remaining_at (ended o) pongs queue = 0

abbrev pub remaining : Writer → ℕ
remaining w = remaining_at w.stage (length w.outbox.pongs) (length w.outbox.send)

-- The case is ready: a pong waits, or none does where the writer serves pongs first. No tick is chosen.
abbrev pub IsReady : Stage → List Outgoing → Ready → Type 0
IsReady stage pongs pong_ready = (listens stage ≡ true) × (pongs ≢ [])
IsReady stage pongs tick_ready = ⊥
IsReady selecting pongs onward_ready = Unit
IsReady finishing pongs onward_ready = pongs ≡ []
IsReady (holding m) pongs onward_ready = pongs ≡ []
IsReady (delivering m) pongs onward_ready = Unit
IsReady (ended o) pongs onward_ready = Unit

-- The last frame closes the connection, and all that waited has been written before it.
abbrev pub IsDrained : Writer → Writer → Type 0
IsDrained w v =
    (v.stage ≡ ended none)
    × (v.outbox.send ≡ [])
    × ((earlier : List Frame) × (v.written
          ≡ earlier ++ close_frame w.outbox.close_code w.outbox.close_reason ∷ [])
        × (messages earlier ≡ in_order w))

-- A closed queue on an open connection, whose writer has not returned and finds the queue empty when it finishes.
pub record IsClosing (w : Writer) : Type 0 where
  pub closed : w.outbox.closed ≡ true
  pub open_conn : w.outbox.severed ≡ false
  pub last : w.stage ≡ finishing → w.outbox.send ≡ []

-- What a step does: it is the last, or it leaves one step less.
pub data Progress (w v : Writer) : Type 0 where
  over : remaining w ≡ 1 → IsDrained w v → Progress w v
  nearer :
      (n : ℕ)
      → IsClosing v
      → remaining w ≡ suc (remaining v)
      → remaining v ≡ suc n
      → v.outbox.close_code ≡ w.outbox.close_code
      → v.outbox.close_reason ≡ w.outbox.close_reason
      → in_order v ≡ in_order w
      → Progress w v

-- A later writer's drain is an earlier one's.
pub IsDrained-earlier :
    (w v u : Writer)
    → v.outbox.close_code ≡ w.outbox.close_code
    → v.outbox.close_reason ≡ w.outbox.close_reason
    → in_order v ≡ in_order w
    → IsDrained v u
    → IsDrained w u
IsDrained-earlier w v u code reason order (returned, empty, (earlier, written, all)) =
    (returned, empty, (earlier, written ∙ rw (code, reason), all ∙ order))

pub if_taken-open : (w next : Writer) → w.outbox.severed ≡ false → if_taken true w next ≡ next
unfolding if_taken
if_taken-open w next h =
    subst
      (λ b. (if true && not b then next else record w { stage = ended (in_hand w.stage) }) ≡ next)
      (sym h) refl

receive_next-closed :
    (w : Writer)
    → w.outbox.send ≡ []
    → w.outbox.closed ≡ true
    → receive_next w ≡ record w { stage = finishing }
unfolding receive_next
receive_next-closed w e closed =
    subst
      (λ queue.
        elim queue as (λ _. Writer) [
          | m ∷ rest ↦ record w { outbox = record w.outbox { send = rest }; stage = holding m }
          | [] ↦ if w.outbox.closed then record w { stage = finishing } else w
        ]
        ≡ record w { stage = finishing })
      (sym e)
      (subst
        (λ b. (if b then record w { stage = finishing } else w) ≡ record w { stage = finishing })
        (sym closed) refl)

receive_next-message :
    (w : Writer) (m : Outgoing) (rest : List Outgoing)
    → w.outbox.send ≡ m ∷ rest
    → receive_next w ≡ record w { outbox = record w.outbox { send = rest }; stage = holding m }
unfolding receive_next
receive_next-message w m rest e =
    subst
      (λ queue.
        elim queue as (λ _. Writer) [
          | o ∷ others ↦ record w { outbox = record w.outbox { send = others }; stage = holding o }
          | [] ↦ if w.outbox.closed then record w { stage = finishing } else w
        ]
        ≡ record w { outbox = record w.outbox { send = rest }; stage = holding m })
      (sym e) refl

after_pongs-none : (w v : Writer) → w.outbox.pongs ≡ [] → after_pongs w v ≡ v
unfolding after_pongs
after_pongs-none w v e =
    subst (λ ps. elim ps as (λ _. Writer) [ [] ↦ v | p ∷ rest ↦ w ] ≡ v) (sym e) refl

-- What is left, where the stage and the lengths are known.
remaining-at :
    (w : Writer) (stage : Stage)
    → w.stage ≡ stage
    → remaining w ≡ remaining_at stage (length w.outbox.pongs) (length w.outbox.send)
remaining-at w stage h = ap (λ st. remaining_at st (length w.outbox.pongs) (length w.outbox.send)) h

receive_next-Progress :
    (w : Writer) → w.stage ≡ selecting → IsClosing w → Progress w (receive_next w)
unfolding receive_next onward
receive_next-Progress w h closing = queued w.outbox.send refl
  where
    queued : (queue : List Outgoing) → w.outbox.send ≡ queue → Progress w (receive_next w)
    queued [] e =
        let path = receive_next-closed w e closing.closed in
        subst (Progress w) (sym path) (
          nearer (length w.outbox.pongs)
            (record { closed = closing.closed; open_conn = closing.open_conn; last = λ _. e })
            (omega (arith, remaining-at w selecting h, ap length e)) (omega arith) refl refl
            (sym (ap in_order path) ∙ onward-in_order selecting true w h))
    queued (m ∷ rest) e =
        let path = receive_next-message w m rest e in
        subst (Progress w) (sym path) (
          nearer (length w.outbox.pongs + 3 * length rest + 3)
            (record { closed = closing.closed; open_conn = closing.open_conn; last = λ k. cc })
            (omega (arith, remaining-at w selecting h, ap length e)) (omega arith) refl refl
            (sym (ap in_order path) ∙ onward-in_order selecting true w h))

pub onward-Progress :
    (stage : Stage) (w : Writer) (n : ℕ)
    → w.stage ≡ stage
    → IsClosing w
    → remaining w ≡ suc n
    → IsReady stage w.outbox.pongs onward_ready
    → Progress w (onward stage true w)
unfolding onward prepare deliver finish in_hand
onward-Progress selecting w n h closing left is_ready = receive_next-Progress w h closing
onward-Progress finishing w n h closing left is_ready =
    let path = after_pongs-none w (finish true w) is_ready ∙ if_taken-open w _ closing.open_conn in
    subst (Progress w) (sym path) (
      over (omega (arith, remaining-at w finishing h, ap length is_ready)) (
        refl,
        closing.last h,
        (
          w.written,
          refl,
          sym (append-nil (messages w.written)) ∙ sym (rw (h, closing.last h) refl),
        ),
      ))
onward-Progress (holding m) w n h closing left is_ready =
    let path =
      after_pongs-none w (prepare true m w) is_ready ∙ if_taken-open w _ closing.open_conn in
    subst (Progress w) (sym path) (
      nearer (length w.outbox.pongs + 3 * length w.outbox.send + 2)
        (record { closed = closing.closed; open_conn = closing.open_conn; last = λ k. cc })
        (omega (arith, remaining-at w (holding m) h)) (omega arith) refl refl
        (sym (ap in_order path) ∙ onward-in_order (holding m) true w h))
onward-Progress (delivering m) w n h closing left is_ready =
    let path = if_taken-open w _ closing.open_conn in
    subst (Progress w) (sym path) (
      nearer (length w.outbox.pongs + 3 * length w.outbox.send + 1)
        (record { closed = closing.closed; open_conn = closing.open_conn; last = λ k. cc })
        (omega (arith, remaining-at w (delivering m) h)) (omega arith) refl refl
        (sym (ap in_order path) ∙ onward-in_order (delivering m) true w h))
onward-Progress (ended o) w n h closing left is_ready =
    let none_left : remaining w ≡ 0 = remaining-at w (ended o) h in
    absurd (omega (arith, none_left, left))

remaining_at-pong :
    (stage : Stage) (pongs queue : ℕ)
    → listens stage ≡ true
    → (remaining_at stage (suc pongs) queue ≡ suc (remaining_at stage pongs queue))
      × (remaining_at stage pongs queue ≡ suc (remaining_at stage pongs queue - 1))
remaining_at-pong selecting pongs queue h = (omega arith, omega arith)
remaining_at-pong finishing pongs queue h = (omega arith, omega arith)
remaining_at-pong (holding m) pongs queue h = (omega arith, omega arith)
remaining_at-pong (delivering m) pongs queue h = cc
remaining_at-pong (ended o) pongs queue h = cc

-- A pong less.
pub served-Progress :
    (w : Writer) (p : Outgoing) (ps : List Outgoing) (written : List Frame)
    → w.outbox.pongs ≡ p ∷ ps
    → listens w.stage ≡ true
    → IsClosing w
    → messages written ≡ messages w.written
    → Progress w (record w { outbox = record w.outbox { pongs = ps }; written = written })
served-Progress w p ps written e listening closing same =
    let less = remaining_at-pong w.stage (length ps) (length w.outbox.send) listening in
    nearer (remaining_at w.stage (length ps) (length w.outbox.send) - 1)
      (record { closed = closing.closed; open_conn = closing.open_conn; last = closing.last })
      (ap (λ (l : List Outgoing). remaining_at w.stage (length l) (length w.outbox.send)) e
        ∙ less.0)
      less.1 refl refl
      (ap (λ (ms : List Outgoing). ms ++ (listed (in_hand w.stage) ++ w.outbox.send)) same)
