-- ===== src/Inputs.antt =====
-- The server as its sockets drive it: readPump of internal/server/client.go hands the bytes that a client sends to
-- handleMessage (server.go), which decodes them.
use metroserver.Prelude.{ℕ, List, [], ◌∷◌, ℤ, Bytes}
use metroserver.World.{Env, Server}
use metroserver.Wire.{Library}
use metroserver.Codec.{receive}
use metroserver.Dispatch.{Event, message, run}

-- The data of a client with the time of its arrival, or another event.
pub data Input : Type 0 where
  arrival : ℕ → Bytes → ℤ → Input
  happening : Event → Input

module _ (lib : Library) where
  unfoldable pub event_of : Input → Event
  event_of (arrival c wire received_at) =
      let (request_id, request) = receive lib wire received_at in message c request_id request
  event_of (happening e) = e

  unfoldable pub events_of : List (Env × Input) → List (Env × Event)
  unfolding event_of
  events_of [] = []
  events_of ((env, input) ∷ rest) = (env, event_of input) ∷ events_of rest

  unfoldable pub run_inputs : Server → List (Env × Input) → Server
  unfolding events_of
  run_inputs s inputs = run s (events_of inputs)
