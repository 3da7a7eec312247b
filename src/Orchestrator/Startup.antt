-- ===== src/Orchestrator/Startup.antt =====
-- main of services/bot-orchestrator/main.go.
use iicpc_summer_hackathon.Prelude.{ℕ, String, List, [], ◌∷◌, length}
use iicpc_summer_hackathon.Prelude.Environment.{getenv}
use iicpc_summer_hackathon.Orchestrator.State.{Orchestrator}

pub record Config : Type 0 where
  pub redis_url : String
  pub port : String

unfoldable pub config_from_env : (String → String) → Config
unfolding getenv
config_from_env environment = record {
  redis_url = getenv environment "REDIS_URL" "redis:6379";
  port = getenv environment "PORT" "9090";
}

-- The counts that /health tells.
abbrev pub health : {F : Type 0} → Orchestrator F → ℕ × ℕ
health o = (length o.workers, length o.sessions)

abbrev pub routes : List (String × String)
routes =
    ("GET", "/health")
    ∷ ("POST", "/api/sessions/start")
    ∷ ("POST", "/api/sessions/:session_id/stop")
    ∷ ("GET", "/api/sessions/:session_id")
    ∷ ("GET", "/api/sessions")
    ∷ ("GET", "/api/workers")
    ∷ ("POST", "/api/workers/:worker_id/heartbeat")
    ∷ ("GET", "/api/workers/:worker_id/poll")
    ∷ []
