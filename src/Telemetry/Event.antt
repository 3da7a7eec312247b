-- ===== src/Telemetry/Event.antt =====
-- The event that services/telemetry-service/main.go reads from Kafka.
use iicpc_summer_hackathon.Prelude.{String, Bool}
use iicpc_summer_hackathon.Prelude.Int.{ℤ}

pub record TelemetryEvent (F : Type 0) : Type 0 where
  pub session_id : String
  pub order_id : String
  pub event_type : String
  pub t_send_ns : ℤ
  pub t_ack_ns : ℤ
  pub latency_ns : ℤ
  pub side : String
  pub order_type : String
  pub price : F
  pub qty : F
  pub fill_price : F
  pub fill_qty : F
  pub seq_no : ℤ
  pub violation : Bool
  pub violation_msg : String
