-- ===== src/Writer/Draining.antt =====
-- A closed queue is written out.
use metroserver.Prelude.{
  ℕ, zero, suc, ◌≡◌, ◌≢◌, refl, sym, subst, ◌∙◌, Bool, true, List, [], ◌∷◌, ◌++◌, append-nil,
  if◌then◌else◌, some_keeps, arith, nat_eq, bytes_eq_instance,
}
use metroserver.World.{Outgoing, Env}
use metroserver.Writer.{
  Frame, pong_frame, Writer, Ready, pong_ready, tick_ready, onward_ready, stamp, write, listens,
  write_pong, write_first_pong, pump_step, drain,
}
use metroserver.Writer.Delivery.{messages, messages-append}
use metroserver.Writer.Progress.{
  remaining, IsReady, IsDrained, IsClosing, Progress, over, nearer, IsDrained-earlier,
  if_taken-open, onward-Progress, served-Progress,
}

module _ (env : Env) (compression : Bool) where
  write_pong-Progress :
      (w : Writer) (p : Outgoing) (ps : List Outgoing)
      → w.outbox.pongs ≡ p ∷ ps
      → listens w.stage ≡ true
      → IsClosing w
      → Progress w
          (write_pong env compression true p (record w { outbox = record w.outbox { pongs = ps } }))
  unfolding write_pong write
  write_pong-Progress w p ps e listening closing =
      some_keeps (Progress w) (env.encoded_size compression (stamp env p.message) p.request_id)
        (λ _. served-Progress w p ps w.written e listening closing refl)
        (λ size _.
          let frame : Frame =
            pong_frame (record p { message = stamp env p.message; size = size }) in
          subst (Progress w)
            (sym (
              if_taken-open (record w { outbox = record w.outbox { pongs = ps } }) _
                closing.open_conn))
            (served-Progress w p ps (w.written ++ frame ∷ []) e listening closing
              (messages-append w.written (frame ∷ []) ∙ append-nil (messages w.written))))

  write_first_pong-Progress :
      (w : Writer)
      → w.outbox.pongs ≢ []
      → listens w.stage ≡ true
      → IsClosing w
      → Progress w (write_first_pong env compression true w)
  unfolding write_first_pong
  write_first_pong-Progress w some_wait listening closing = served w.outbox.pongs refl
    where
      served :
          (ps : List Outgoing)
          → w.outbox.pongs ≡ ps
          → Progress w (elim ps as (λ _. Writer) [
            | [] ↦ w
            | p ∷ rest ↦
                write_pong env compression true p
                  (record w { outbox = record w.outbox { pongs = rest } })
          ])
      served [] e = absurd (some_wait e)
      served (p ∷ ps) e = write_pong-Progress w p ps e listening closing

  pump_step-Progress :
      (ready : Ready) (w : Writer) (n : ℕ)
      → IsClosing w
      → remaining w ≡ suc n
      → IsReady w.stage w.outbox.pongs ready
      → Progress w (pump_step env compression ready true w)
  unfolding pump_step
  pump_step-Progress pong_ready w n h left is_ready =
      subst (λ b. Progress w (if b then write_first_pong env compression true w else w))
        (sym is_ready.0) (write_first_pong-Progress w is_ready.1 is_ready.0 h)
  pump_step-Progress tick_ready w n h left is_ready = absurd is_ready
  pump_step-Progress onward_ready w n h left is_ready =
      onward-Progress w.stage w n refl h left is_ready

  -- Once a queue is closed, its connection being open, and whichever ready cases the writer chooses, with every write
  -- taken by the socket and heartbeats apart: after as many steps as are left, a number known beforehand, every message
  -- that the writer had in hand or that waited has been delivered, in order, after what was written before; then came
  -- the close frame with the code and the reason, and the writer has returned.
  pub drain-IsDrained :
      (choose : Writer → Ready) (w : Writer) (n : ℕ)
      → ((v : Writer) → IsReady v.stage v.outbox.pongs (choose v))
      → IsClosing w
      → remaining w ≡ suc n
      → IsDrained w (drain env compression choose (suc n) w)
  unfolding drain
  drain-IsDrained choose w zero ready h left =
      elim (pump_step-Progress (choose w) w zero h left (ready w)) [
        | over one drained ↦ drained
        | nearer m closing less more code reason order ↦ absurd (omega (arith, left, less, more))
      ]
  drain-IsDrained choose w (suc n) ready h left =
      elim (pump_step-Progress (choose w) w (suc n) h left (ready w)) [
        | over one drained ↦ absurd (omega (arith, left, one))
        | nearer m closing less more code reason order ↦
            IsDrained-earlier w (pump_step env compression (choose w) true w)
              (drain env compression choose (suc n) (pump_step env compression (choose w) true w))
              code reason order
              (drain-IsDrained choose (pump_step env compression (choose w) true w) n ready closing
                (omega (arith, left, less)))
      ]
