-- ===== src/BotWorker/Exchange/Wire.antt =====
-- The read goroutine of runWS, which hands the exchange's answers to the loop by a channel, and Run's
-- choice of a loop, of services/bot-worker/main.go. The WebSocket library is a parameter: what
-- ReadMessage and json.Unmarshal make of the messages comes with the steps.
use iicpc_summer_hackathon.Prelude.{
  ℕ, Bool, List, [], ◌∷◌, ◌++◌, if◌then◌else◌, ltb, length, str_eq,
}
use iicpc_summer_hackathon.Prelude.Float.{Float64}
use iicpc_summer_hackathon.BotWorker.Order.{OrderResponse}
use iicpc_summer_hackathon.BotWorker.Bot.{Bot}
use iicpc_summer_hackathon.BotWorker.Exchange.{BotLoop, new_loop, Input, Round, run_ws, run_rest}
pub mod Answers

-- The size of the channel.
abbrev pub acks_capacity : ℕ
acks_capacity = 512

-- The goroutine: in ReadMessage, before its send of an answer, or returned.
pub data Receiver (F : Type 0) : Type 0 where
  receiving : Receiver F
  sending : OrderResponse F → Receiver F
  returned : Receiver F

pub record Wire (F : Type 0) : Type 0 where
  pub acks : List (OrderResponse F)
  pub receiver : Receiver F

-- A read that fails, a message that is no answer, one that is, the send, which waits while the channel
-- is full, and the receive of the loop's select.
pub data Move (F : Type 0) : Type 0 where
  breaks skips sends takes : Move F
  reads : OrderResponse F → Move F

module _ {F : Type 0} where
  abbrev pub new_wire : Wire F
  new_wire = record { acks = []; receiver = receiving }

  abbrev pub on_message : Receiver F → Receiver F → Receiver F
  on_message next receiving = next
  on_message next (sending ack) = sending ack
  on_message next returned = returned

  abbrev pub send : Receiver F → Wire F → Wire F
  send receiving w = w
  send (sending ack) w =
      if ltb (length w.acks) acks_capacity
      then record { acks = w.acks ++ ack ∷ []; receiver = receiving }
      else w
  send returned w = w

  abbrev pub drop_first : List (OrderResponse F) → List (OrderResponse F)
  drop_first [] = []
  drop_first (ack ∷ acks) = acks

  unfoldable pub step : Move F → Wire F → Wire F
  step breaks w = record w { receiver = on_message returned w.receiver }
  step skips w = w
  step (reads ack) w = record w { receiver = on_message (sending ack) w.receiver }
  step sends w = send w.receiver w
  step takes w = record w { acks = drop_first w.acks }

  unfoldable pub run_wire : List (Move F) → Wire F → Wire F
  unfolding step
  run_wire [] w = w
  run_wire (m ∷ ms) w = run_wire ms (step m w)

module _ {F : Type 0} ⦃fl : Float64 F⦄ where
  -- Run: `dialled` tells whether the WebSocket connection is made; without one the REST loop runs.
  unfoldable pub run : Bot → Bool → List (Input F) → List (Round F) → BotLoop F
  unfolding run_ws run_rest
  run b dialled inputs rounds =
      if str_eq b.endpoint_type "WebSocket"
      then (if dialled
          then run_ws b.session_id inputs new_loop
          else run_rest b.session_id rounds new_loop)
      else run_rest b.session_id rounds new_loop
