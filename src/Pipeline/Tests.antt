-- ===== src/Pipeline/Tests.antt =====
-- A test of the way from two bots to the metrics.
use iicpc_summer_hackathon.Prelude.{
  ℕ, All, String, ◌≡◌, refl, true, false, List, [], ◌∷◌, Option, none, some, arith, if◌then◌else◌,
  str_eq,
}
use iicpc_summer_hackathon.Prelude.Int.{ℤ, pos, add64}
use iicpc_summer_hackathon.Prelude.Float.{Float64}
use iicpc_summer_hackathon.Prelude.Merge.{both_done, from_first, from_second, no_lists, one_more}
use iicpc_summer_hackathon.Telemetry.Event.{TelemetryEvent}
use iicpc_summer_hackathon.Prelude.Float.Fixed.{fixed_point}
use iicpc_summer_hackathon.Telemetry.Validator.{new_validator}
use iicpc_summer_hackathon.Telemetry.Metrics.{session_metrics}
use iicpc_summer_hackathon.Telemetry.Consumer.{Fetched, failed, message, Consumer, run}
use iicpc_summer_hackathon.BotWorker.Order.{Order, OrderResponse}
use iicpc_summer_hackathon.BotWorker.Bot.{market_maker, new_bot}
use iicpc_summer_hackathon.BotWorker.Exchange.{
  acks, ticks, Round, event_of, rest_event, run_rest, run_ws, ws_step, on_tick, on_ack,
}
use iicpc_summer_hackathon.BotWorker.Exchange.Accounts.{AllNew}
use iicpc_summer_hackathon.BotWorker.Exchange.Wire.{run as run_bot}
use iicpc_summer_hackathon.Prelude.Dict.{lookup, insert, delete}
use iicpc_summer_hackathon.Pipeline.{BotRun, settled_for, IsShort}
use iicpc_summer_hackathon.Pipeline.Orders.{orders_arrive}

instance abbrev units : Float64 ℕ
units = fixed_point

abbrev order : String → Order ℕ
order id = record {
  order_id = id;
  session_id = "s";
  side = "B";
  order_type = "L";
  price = 1000000;
  qty = 100000;
  seq_no = pos 1;
  timestamp = pos 5;
}

abbrev round : String → Round ℕ
round id = record { is_made = true; order = order id; t_send = pos 5; answer = none; t_ack = pos 7 }

abbrev answer : OrderResponse ℕ
answer = record {
  order_id = "o3";
  status = "FILL";
  fill_price = 1000000;
  fill_qty = 100000;
  seq_no = pos 1;
  timestamp = pos 6;
}

-- A REST bot that sends two orders, and a WebSocket bot one of whose two orders is answered.
abbrev bots : List (BotRun ℕ)
bots =
    record {
      bot = new_bot "b1" market_maker "s" "http://target" "REST";
      dialled = false;
      inputs = [];
      rounds = round "o1" ∷ round "o2" ∷ [];
    }
    ∷ record {
      bot = new_bot "b2" market_maker "t" "ws://target" "WebSocket";
      dialled = true;
      inputs =
          ticks (order "o3") (pos 5) true
          ∷ ticks (order "o4") (pos 6) true
          ∷ acks answer (pos 8)
          ∷ [];
      rounds = [];
    }
    ∷ []

bots-IsShort : All IsShort bots
unfolding AllNew ws_step on_tick lookup insert
bots-IsShort = (
  record { rounds = omega arith; inputs = omega arith; new = tt },
  (record { rounds = omega arith; inputs = omega arith; new = (refl, (refl, (tt, tt))) }, tt),
)

abbrev event : String → TelemetryEvent ℕ
event id = rest_event "s" (round id)

abbrev answered : TelemetryEvent ℕ
answered = event_of "t" (order "o3") (pos 5) (pos 8) "FILL" 1000000 100000

abbrev decode : String → Option (TelemetryEvent ℕ)
decode value =
    if str_eq value "1"
    then some (event "o1")
    else if str_eq value "2"
    then some answered
    else some (event "o2")

abbrev answers : List Fetched
answers =
    message (record { offset = 0; value = "1"; now = pos 8; clock = λ i. pos 9; draw = λ n. pos 0 })
    ∷ failed false
    ∷ message
        (record { offset = 1; value = "2"; now = pos 9; clock = λ i. pos 9; draw = λ n. pos 0 })
    ∷ message
        (record { offset = 2; value = "3"; now = pos 9; clock = λ i. pos 9; draw = λ n. pos 0 })
    ∷ []

abbrev idle : Consumer ℕ
idle = record { validator = new_validator; ts_writer = none; sessions = []; committed = [] }

orders_arrive_example :
    (c' : Consumer ℕ) × (run decode answers idle ≡ some c')
    × ((s : String) (now : ℤ)
        → (session_metrics now c'.sessions s).total_orders ≡ pos (settled_for s bots))
unfolding run_bot run_rest run_ws ws_step on_tick on_ack lookup insert delete
orders_arrive_example =
    orders_arrive decode bots (event "o1" ∷ answered ∷ event "o2" ∷ []) answers idle bots-IsShort
      (one_more (one_more no_lists (from_first both_done))
        (from_first (from_second (from_first both_done))))
      refl refl ((λ n h. (0, refl, h)), ((λ n h. (0, refl, h)), ((λ n h. (0, refl, h)), tt)))
      (omega arith)

-- Two orders of the one session, and the one that is answered of the other.
settled_for_each : (settled_for "s" bots ≡ 2) × (settled_for "t" bots ≡ 1)
unfolding run_bot run_rest run_ws ws_step on_tick on_ack lookup insert delete add64
settled_for_each = (refl, refl)
