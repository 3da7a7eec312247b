-- ===== src/BotWorker/Startup.antt =====
-- The start of services/bot-worker/main.go: main, ensureTopic, NewTelemetryProducer, NewWorker and
-- NewOrchestratorPoller. Kafka and the uuid library are parameters.
use iicpc_summer_hackathon.Prelude.{String, Bool, ◌&&◌, List, Option, none, some, ℕ}
use iicpc_summer_hackathon.Prelude.Environment.{getenv}
use iicpc_summer_hackathon.Submission.Build.{short_id}
use iicpc_summer_hackathon.BotWorker.Worker.{Poller, new_poller}
use iicpc_summer_hackathon.BotWorker.Worker.Polling.{PollAnswer, poll}

pub record Config : Type 0 where
  pub orch_url : String
  pub brokers : String
  pub topic : String
  pub worker_id : String

unfoldable pub config_from_env : (String → String) → String → Config
unfolding getenv
config_from_env environment fresh = record {
  orch_url = getenv environment "ORCHESTRATOR_URL" "http://bot-orchestrator:9090";
  brokers = getenv environment "REDPANDA_BROKERS" "redpanda:9092";
  topic = getenv environment "TELEMETRY_TOPIC" "raw.telemetry";
  worker_id = getenv environment "WORKER_ID" fresh;
}

-- The three calls of ensureTopic, of which CreateTopics' error is not looked at.
pub record TopicRun : Type 0 where
  pub dial : Bool
  pub controller : Bool
  pub dial_controller : Bool

-- Whether CreateTopics is called; main goes on in either case.
abbrev pub ensure_topic : TopicRun → Bool
ensure_topic r = r.dial && r.controller && r.dial_controller

-- main, over the orchestrator's answers: none is the panic of the log line, on an id under 8 bytes.
unfoldable pub main : Config → List PollAnswer → Option (ℕ × Poller)
unfolding poll
main c answers = elim (short_id c.worker_id) [
  | none ↦ none
  | some short ↦ some (poll answers (new_poller c.worker_id))
]
