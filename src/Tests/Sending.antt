-- ===== src/Tests/Sending.antt =====
-- The theorems on the reader and the writer of a connection (internal/server/client.go), at concrete inputs.
use metroserver.Prelude.{
  ◌≡◌, refl, true, false, some, List, [], ◌∷◌, ◌++◌, bytes, nat_eq, bytes_eq_instance, arith,
}
use metroserver.Protocol.{ack, kicked}
use metroserver.World.{Outgoing, Server}
use metroserver.Connections.{new_server, new_outbox, allow_message, begin_window}
use metroserver.Dispatch.{leave, read_message}
use metroserver.Dispatch.Flood.{IsUntouched, IsToldOnce, read_message_refused}
use metroserver.Writer.{
  Stage, selecting, finishing, holding, delivering, ended, Writer, Ready, pong_ready, tick_ready,
  onward_ready, Move, queueing, closing, stepping, move_all, drain,
}
use metroserver.Writer.Delivery.{in_order, accepted_all, move_all-in_order}
use metroserver.Writer.Charging.{IsCharged, move_all-IsCharged}
use metroserver.Writer.Progress.{IsReady, IsDrained, IsClosing}
use metroserver.Writer.Draining.{drain-IsDrained}
use metroserver.Tests.{minute_env}

abbrev waiting : Outgoing
waiting = record { message = ack; request_id = 4; size = 12 }

abbrev busy_writer : Writer
busy_writer = record {
  outbox = record new_outbox { send = waiting ∷ waiting ∷ []; queued_bytes = 24 };
  written = [];
  stage = selecting;
}

abbrev last_words : Outgoing
last_words = record { message = kicked (bytes "Bye"); request_id = 0; size = 30 }

-- The writer fails while it writes the second message.
abbrev some_moves : List Move
some_moves =
    stepping tick_ready true
    ∷ queueing last_words
    ∷ stepping onward_ready true
    ∷ closing 1008 (bytes "kicked")
    ∷ stepping onward_ready true
    ∷ stepping onward_ready true
    ∷ stepping onward_ready true
    ∷ queueing waiting
    ∷ stepping onward_ready false
    ∷ stepping onward_ready true
    ∷ []

move_all-in_order_example :
    in_order (move_all (minute_env []) false some_moves busy_writer)
    ≡ in_order busy_writer ++ accepted_all (minute_env []) false some_moves busy_writer
move_all-in_order_example = move_all-in_order (minute_env []) false some_moves busy_writer

move_all-IsCharged_example : IsCharged (move_all (minute_env []) false some_moves busy_writer)
unfolding new_outbox
move_all-IsCharged_example =
    move_all-IsCharged (minute_env []) false some_moves busy_writer (refl, omega arith)

abbrev closed_writer : Writer
closed_writer = record busy_writer {
  outbox = record busy_writer.outbox { closed = true; close_code = 1008 };
}

closed_writer-IsClosing : IsClosing closed_writer
unfolding new_outbox
closed_writer-IsClosing = record { closed = refl; open_conn = refl; last = λ k. cc }

-- Pongs first, where the writer is in a select.
abbrev choose_among : Stage → List Outgoing → Ready
choose_among selecting (p ∷ ps) = pong_ready
choose_among finishing (p ∷ ps) = pong_ready
choose_among (holding m) (p ∷ ps) = pong_ready
choose_among selecting [] = onward_ready
choose_among finishing [] = onward_ready
choose_among (holding m) [] = onward_ready
choose_among (delivering m) pongs = onward_ready
choose_among (ended o) pongs = onward_ready

choose_among-IsReady :
    (stage : Stage) (pongs : List Outgoing) → IsReady stage pongs (choose_among stage pongs)
choose_among-IsReady selecting (p ∷ ps) = (refl, λ e. cc)
choose_among-IsReady finishing (p ∷ ps) = (refl, λ e. cc)
choose_among-IsReady (holding m) (p ∷ ps) = (refl, λ e. cc)
choose_among-IsReady selecting [] = tt
choose_among-IsReady finishing [] = refl
choose_among-IsReady (holding m) [] = refl
choose_among-IsReady (delivering m) pongs = tt
choose_among-IsReady (ended o) pongs = tt

abbrev pongs_first : Writer → Ready
pongs_first w = choose_among w.stage w.outbox.pongs

drain-IsDrained_example :
    IsDrained closed_writer (drain (minute_env []) false pongs_first 8 closed_writer)
unfolding new_outbox
drain-IsDrained_example =
    drain-IsDrained (minute_env []) false pongs_first closed_writer 7
      (λ v. choose_among-IsReady v.stage v.outbox.pongs) closed_writer-IsClosing refl

abbrev flooded : Server
flooded = record (new_server 0) {
  rates_at = λ c. record { start = some 60_000_000_000; count = 60; notified = false };
}

read_message_refused_example :
    IsUntouched flooded (read_message (minute_env []) flooded 3 9 leave) 3
    × IsToldOnce flooded (read_message (minute_env []) flooded 3 9 leave) 3
unfolding allow_message begin_window
read_message_refused_example = read_message_refused (minute_env []) flooded 3 9 leave refl
