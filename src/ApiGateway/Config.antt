-- ===== src/ApiGateway/Config.antt =====
-- Config, configFromEnv and the addresses of services/api-gateway/main.go.
use iicpc_summer_hackathon.Prelude.{String}
use iicpc_summer_hackathon.Prelude.Environment.{getenv}

pub record Config : Type 0 where
  pub port : String
  pub jwt_secret : String
  pub submission_svc : String
  pub ws_gateway : String
  pub scoring_url : String
  pub orchestrator_url : String
  pub redis_url : String

unfoldable pub config_from_env : (String → String) → Config
unfolding getenv
config_from_env environment = record {
  port = getenv environment "PORT" "8080";
  jwt_secret = getenv environment "JWT_SECRET" "dev-secret-change-in-prod";
  submission_svc = getenv environment "SUBMISSION_SVC" "http://submission-service:8080";
  ws_gateway = getenv environment "WS_GATEWAY" "http://ws-gateway:8080";
  scoring_url = getenv environment "SCORING_URL" "http://scoring-service:8080";
  orchestrator_url = getenv environment "BOT_ORCHESTRATOR_URL" "http://bot-orchestrator:9090";
  redis_url = getenv environment "REDIS_URL" "redis:6379";
}
