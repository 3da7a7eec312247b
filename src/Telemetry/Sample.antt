-- ===== src/Telemetry/Sample.antt =====
-- Sample events, with prices in units of 1 / 10000, for the tests of the telemetry modules.
use iicpc_summer_hackathon.Prelude.{ℕ, String, false}
use iicpc_summer_hackathon.Prelude.Int.{pos}
use iicpc_summer_hackathon.Prelude.Float.{Float64}
use iicpc_summer_hackathon.Prelude.Float.Fixed.{fixed_point}
use iicpc_summer_hackathon.Telemetry.Event.{TelemetryEvent}

instance abbrev pub price_units : Float64 ℕ
price_units = fixed_point

abbrev pub limit_order : String → String → ℕ → TelemetryEvent ℕ
limit_order id side price = record {
  session_id = "s";
  order_id = id;
  event_type = "ACK";
  t_send_ns = pos 1;
  t_ack_ns = pos 2;
  latency_ns = pos 1;
  side = side;
  order_type = "L";
  price = price;
  qty = 10000;
  fill_price = 0;
  fill_qty = 0;
  seq_no = pos 1;
  violation = false;
  violation_msg = "";
}

-- A fill of 0.5 of an order for 1 at a price.
abbrev pub fill_order : String → String → ℕ → TelemetryEvent ℕ
fill_order id side price = record (limit_order id side price) {
  event_type = "FILL";
  fill_price = price;
  fill_qty = 5000;
}
