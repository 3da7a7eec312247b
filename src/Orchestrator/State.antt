-- ===== src/Orchestrator/State.antt =====
-- The types of services/bot-orchestrator/main.go, and the orchestrator's state. Times are
-- nanoseconds; Redis is a log of the commands sent to it and, where the code looks at it, an answer.
use iicpc_summer_hackathon.Prelude.{
  ℕ, String, Bool, List, [], ◌∷◌, ◌++◌, Option, if◌then◌else◌, ltb, length,
}
use iicpc_summer_hackathon.Prelude.Int.{ℤ}
use iicpc_summer_hackathon.Prelude.Dict.{Dict}

pub data SessionStatus : Type 0 where
  pending running stopping done error : SessionStatus

pub record BenchmarkSession (F : Type 0) : Type 0 where
  pub session_id : String
  pub submission_id : String
  pub status : SessionStatus
  pub target_url : String
  pub endpoint_type : String
  pub bot_count : ℤ
  pub duration_secs : ℤ
  pub active_bots : ℤ
  pub orders_sent : ℤ
  pub orders_acked : ℤ
  pub tps : F
  pub p50_ns : ℤ
  pub p99_ns : ℤ
  pub created_at : ℕ
  pub started_at : Option ℕ
  pub ended_at : Option ℕ

pub record WorkerInfo : Type 0 where
  pub worker_id : String
  pub session_id : String
  pub active_bots : ℤ
  pub orders_sent : ℤ
  pub last_seen : ℕ

pub record WorkerCmd : Type 0 where
  pub command : String
  pub session_id : String
  pub target_url : String
  pub bot_count : ℤ
  pub endpoint_type : String

pub record WorkerHeartbeat : Type 0 where
  pub worker_id : String
  pub session_id : String
  pub active_bots : ℤ
  pub orders_sent : ℤ

-- What is sent to Redis: keys with their values, hash fields, and messages on channels.
pub data RedisCommand (F : Type 0) : Type 0 where
  set_session : String → BenchmarkSession F → RedisCommand F
  h_set : String → List (String × String) → RedisCommand F
  publish_event : String → String → RedisCommand F
  publish_cmd : String → WorkerCmd → RedisCommand F

-- The maps of the orchestrator. A command channel is the queue of its buffer.
pub record Orchestrator (F : Type 0) : Type 0 where
  pub sessions : Dict (BenchmarkSession F)
  pub workers : Dict WorkerInfo
  pub cmd_chans : Dict (List WorkerCmd)
  pub last_reported_orders : Dict ℤ
  pub redis : List (RedisCommand F)

abbrev pub new_orchestrator : {F : Type 0} → Orchestrator F
new_orchestrator = record {
  sessions = [];
  workers = [];
  cmd_chans = [];
  last_reported_orders = [];
  redis = [];
}

abbrev pub chan_capacity : ℕ
chan_capacity = 64

-- The select with a default: whether the buffer had room, and the buffer after.
unfoldable pub offer : WorkerCmd → List WorkerCmd → Bool × List WorkerCmd
offer cmd ch =
    let room = ltb (length ch) chan_capacity in (room, if room then ch ++ cmd ∷ [] else ch)

abbrev pub send_redis : {F : Type 0} → RedisCommand F → Orchestrator F → Orchestrator F
send_redis c o = record o { redis = o.redis ++ c ∷ [] }
