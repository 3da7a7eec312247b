-- ===== src/BotWorker/Exchange.antt =====
-- The loops runWS and runREST of services/bot-worker/main.go, by which a bot sends orders to the
-- exchange under test and reports the answers. The event is the telemetry service's, which has the
-- same fields.
-- json.Marshal of an order is taken to succeed, as it does on finite numbers.
use iicpc_summer_hackathon.Prelude.{
  String, ◌≡◌, Bool, true, false, List, [], ◌∷◌, ◌++◌, Option, none, some, if◌then◌else◌, str_eq,
}
use iicpc_summer_hackathon.Prelude.Int.{ℤ, pos, add64, sub64}
use iicpc_summer_hackathon.Prelude.Float.{Float64}
use iicpc_summer_hackathon.Prelude.Dict.{Dict, lookup, insert, delete}
use iicpc_summer_hackathon.Telemetry.Event.{TelemetryEvent}
use iicpc_summer_hackathon.BotWorker.Order.{Order, OrderResponse}
pub mod Accounts
pub mod Wire

module _ {F : Type 0} where
  -- The event for an order sent at one time and answered at another.
  abbrev pub event_of : String → Order F → ℤ → ℤ → String → F → F → TelemetryEvent F
  event_of session_id o t_send t_ack event_type fill_price fill_qty = record {
    session_id = session_id;
    order_id = o.order_id;
    event_type = event_type;
    t_send_ns = t_send;
    t_ack_ns = t_ack;
    latency_ns = sub64 t_ack t_send;
    side = o.side;
    order_type = o.order_type;
    price = o.price;
    qty = o.qty;
    fill_price = fill_price;
    fill_qty = fill_qty;
    seq_no = o.seq_no;
    violation = false;
    violation_msg = "";
  }

-- What a bot's loop holds: the orders that wait for an answer with their times, the count of orders,
-- what was handed to the telemetry producer, and whether the loop still runs.
pub record BotLoop (F : Type 0) : Type 0 where
  pub pending : Dict (Order F × ℤ)
  pub orders_sent : ℤ
  pub emitted : List (TelemetryEvent F)
  pub is_running : Bool

abbrev pub new_loop : {F : Type 0} → BotLoop F
new_loop = record { pending = []; orders_sent = pos 0; emitted = []; is_running = true }

-- What the select of runWS can find: an answer with the time, a tick with the order made, the time
-- and whether the write succeeds, or the end of the context.
pub data Input (F : Type 0) : Type 0 where
  acks : OrderResponse F → ℤ → Input F
  ticks : Order F → ℤ → Bool → Input F
  cancelled : Input F

-- One round of runREST: whether the request could be made, the order, its time, the answer (none
-- for an error of the client) and its time.
pub record Round (F : Type 0) : Type 0 where
  pub is_made : Bool
  pub order : Order F
  pub t_send : ℤ
  pub answer : Option (OrderResponse F)
  pub t_ack : ℤ

module _ {F : Type 0} where
  abbrev pub emit : TelemetryEvent F → BotLoop F → BotLoop F
  emit e l = record l { emitted = l.emitted ++ e ∷ [] }

  unfoldable pub on_ack : String → OrderResponse F → ℤ → BotLoop F → BotLoop F
  on_ack session_id ack now l = elim (lookup ack.order_id l.pending) [
    | none ↦ l
    | some (o, t_send) ↦
        emit
          (record (event_of session_id o t_send now ack.status ack.fill_price ack.fill_qty) {
            order_id = ack.order_id;
          })
          (record l { pending = delete ack.order_id l.pending })
  ]

  unfoldable pub on_tick : Order F → ℤ → Bool → BotLoop F → BotLoop F
  on_tick o t_send is_written l =
      if is_written
      then record l {
        pending = insert o.order_id (o, t_send) l.pending;
        orders_sent = add64 l.orders_sent (pos 1);
      }
      else record l { is_running = false }

  unfoldable pub ws_step : String → Input F → BotLoop F → BotLoop F
  ws_step session_id (acks ack now) l = on_ack session_id ack now l
  ws_step session_id (ticks o t_send is_written) l = on_tick o t_send is_written l
  ws_step session_id cancelled l = record l { is_running = false }

  -- The loop over what its select finds, until it returns.
  unfoldable pub run_ws : String → List (Input F) → BotLoop F → BotLoop F
  run_ws session_id [] l = l
  run_ws session_id (i ∷ is) l =
      if l.is_running then run_ws session_id is (ws_step session_id i l) else l

module _ {F : Type 0} ⦃fl : Float64 F⦄ where
  -- The event of a round.
  unfoldable pub rest_event : String → Round F → TelemetryEvent F
  rest_event session_id r = elim r.answer [
    | none ↦ event_of session_id r.order r.t_send r.t_ack "ERROR" (fl.decimal 0 0) (fl.decimal 0 0)
    | some ack ↦
        event_of session_id r.order r.t_send r.t_ack
          (if str_eq ack.status "" then "ACK" else ack.status) ack.fill_price ack.fill_qty
  ]

  -- The rounds of runREST before the context ends.
  unfoldable pub run_rest : String → List (Round F) → BotLoop F → BotLoop F
  run_rest session_id [] l = l
  run_rest session_id (r ∷ rs) l = run_rest session_id rs (
      if r.is_made
      then record (emit (rest_event session_id r) l) { orders_sent = add64 l.orders_sent (pos 1) }
      else l)
