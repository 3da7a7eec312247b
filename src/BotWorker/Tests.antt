-- ===== src/BotWorker/Tests.antt =====
-- Tests of the bot worker's modules.
mod Answers
use iicpc_summer_hackathon.Prelude.{
  ℕ, ◌+◌, ◌*◌, String, ◌≡◌, refl, false, List, [], ◌∷◌, arith, All, ◌%◌,
}
use Prim.Native.String.{◌++◌ as str_append}
use native.Mathlib.Nat.{mod-lt}
use iicpc_summer_hackathon.Prelude.Int.{pos}
use iicpc_summer_hackathon.Prelude.Float.{Float64}
use iicpc_summer_hackathon.Prelude.Float.Fixed.{fixed_point}
use iicpc_summer_hackathon.Orchestrator.State.{WorkerCmd}
use iicpc_summer_hackathon.Orchestrator.Sessions.{stop_cmd}
use iicpc_summer_hackathon.BotWorker.Order.{
  Order, OrderResponse, Rounding, MarketSim, new_market_sim,
}
use iicpc_summer_hackathon.BotWorker.Bot.{
  Rng, IntnInBound, market_maker, retail_flow, Bot, new_bot, generate_order,
}
use iicpc_summer_hackathon.BotWorker.Bot.Orders.{IsFrom, generate_order_lem}
use iicpc_summer_hackathon.BotWorker.Exchange.{cancelled}
use iicpc_summer_hackathon.BotWorker.Worker.{
  Spawn, Poller, new_poller, is_live, Event, commands, spawns_at, on_start, on_stop, on_command,
  on_spawn, on_event, run_events,
}
use iicpc_summer_hackathon.BotWorker.Worker.Stopping.{idle_none_live}
use iicpc_summer_hackathon.BotWorker.Worker.Mix.{count}

instance abbrev units : Float64 ℕ
units = fixed_point

instance abbrev whole : Rounding ℕ
whole = record { round = λ n. n }

-- A generator that counts.
abbrev counter : Rng ℕ ℕ
counter = record { float64 = λ g. (g % 10000, g + 1); intn = λ n g. (g % n, g + 1) }

counter-IntnInBound : IntnInBound counter
counter-IntnInBound n g h = mod-lt g h

abbrev maker : Bot
maker = new_bot "b1" market_maker "s" "http://target" "REST"

abbrev retail : Bot
retail = new_bot "b2" retail_flow "s" "http://target" "REST"

abbrev sim : MarketSim ℕ
sim = new_market_sim 1000000

generate_order_lem_example :
    IsFrom market_maker (generate_order counter maker "o1" (pos 5) sim 3).0
    × ((generate_order counter maker "o1" (pos 5) sim 3).0.order_id ≡ "o1")
    × ((generate_order counter maker "o1" (pos 5) sim 3).0.session_id ≡ "s")
generate_order_lem_example = generate_order_lem counter maker "o1" (pos 5) sim 3 counter-IntnInBound

abbrev order : String → Order ℕ
order id = record {
  order_id = id;
  session_id = "s";
  side = "B";
  order_type = "L";
  price = 1000000;
  qty = 100000;
  seq_no = pos 1;
  timestamp = pos 5;
}

abbrev pub answer : String → OrderResponse ℕ
answer id = record {
  order_id = id;
  status = "FILL";
  fill_price = 1000000;
  fill_qty = 100000;
  seq_no = pos 1;
  timestamp = pos 6;
}

abbrev start : WorkerCmd
start = record {
  command = "START";
  session_id = "s";
  target_url = "http://target";
  bot_count = pos 10;
  endpoint_type = "REST";
}

abbrev name : String → ℕ → String
name id i = str_append id "-bot"

abbrev events : List Event
events = commands start ∷ spawns_at 0 ∷ commands start ∷ commands (stop_cmd "s") ∷ spawns_at 0 ∷ []

idle_none_live_example :
    All
      (λ g. is_live (run_events name events (new_poller "w")).worker.cancelled g ≡ false)
      (run_events name events (new_poller "w")).worker.goroutines
unfolding run_events on_event on_command on_start on_stop on_spawn
idle_none_live_example = idle_none_live name "w" events refl

abbrev ten_bots : Spawn
ten_bots = record { session_context = 0; cmd = start; count = pos 10 }

abbrev started : Poller
started = run_events name (commands start ∷ spawns_at 0 ∷ []) (new_poller "w")
