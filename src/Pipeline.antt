-- ===== src/Pipeline.antt =====
-- The way of the bots' events from services/bot-worker/main.go to the metrics of
-- services/telemetry-service/main.go. Kafka and the JSON of the events are parameters: the messages that
-- the consumer gets are those of the events of all bots, each of them once, and each bot's in its order.
use iicpc_summer_hackathon.Prelude.{
  ℕ, ◌+◌, ◌-◌, ◌<◌, length, String, ◌≡◌, Bool, List, [], ◌∷◌, Option, some, map, if◌then◌else◌,
  str_eq,
}
use iicpc_summer_hackathon.Prelude.Int.{pos_part}
use iicpc_summer_hackathon.Prelude.Float.{Float64}
use iicpc_summer_hackathon.Telemetry.Event.{TelemetryEvent}
use iicpc_summer_hackathon.Telemetry.Consumer.{Message}
use iicpc_summer_hackathon.BotWorker.Bot.{Bot}
use iicpc_summer_hackathon.BotWorker.Exchange.{Round, Input, BotLoop, new_loop}
use iicpc_summer_hackathon.BotWorker.Exchange.Accounts.{AllNew}
use iicpc_summer_hackathon.BotWorker.Exchange.Wire.{run}
pub mod Loops
pub mod Orders
mod Tests

-- A bot, whether its WebSocket connection is made, and what its loops find.
pub record BotRun (F : Type 0) : Type 0 where
  pub bot : Bot
  pub dialled : Bool
  pub inputs : List (Input F)
  pub rounds : List (Round F)

module _ {F : Type 0} ⦃fl : Float64 F⦄ where
  -- The loop in the end.
  abbrev pub loop_of : BotRun F → BotLoop F
  loop_of b = run b.bot b.dialled b.inputs b.rounds

  abbrev pub emitted_of : List (BotRun F) → List (List (TelemetryEvent F))
  emitted_of = map (λ b. (loop_of b).emitted)

  -- The orders of a loop that are sent and do not wait for an answer.
  abbrev pub settled : BotLoop F → ℕ
  settled l = pos_part l.orders_sent - length l.pending

  -- Those of all bots of a session.
  abbrev pub settled_for : String → List (BotRun F) → ℕ
  settled_for s [] = 0
  settled_for s (b ∷ bots) =
      let rest = settled_for s bots in
      if str_eq b.bot.session_id s then settled (loop_of b) + rest else rest

  -- A bot's rounds and inputs are fewer than 2^63, and no new order has the id of one that waits.
  pub record IsShort (b : BotRun F) : Type 0 where
    pub rounds : length b.rounds < 9223372036854775808
    pub inputs : length b.inputs < 9223372036854775808
    pub new : AllNew b.bot.session_id b.inputs new_loop

  -- The messages of the topic are read as these events: the two services' structs have the same tags.
  abbrev pub Carries :
      (String → Option (TelemetryEvent F)) → List Message → List (TelemetryEvent F) → Type 0
  Carries decode msgs events = map (λ msg. decode msg.value) msgs ≡ map some events
