-- ===== src/WsGateway/Server.antt =====
-- startRedisSubscriber, statsHandler and main of services/ws-gateway/main.go. Redis, the upgrade of a
-- connection and the choice of net/http among the patterns are parameters.
use iicpc_summer_hackathon.Prelude.{
  ℕ, String, Bool, List, [], ◌∷◌, Option, none, some, length, str_eq, if◌then◌else◌,
}
use iicpc_summer_hackathon.Prelude.Environment.{getenv}
use iicpc_summer_hackathon.WsGateway.Streams.{Gateway, accept, publish}

-- What main reads of the environment.
pub record Config : Type 0 where
  pub port : String
  pub redis_url : String

unfoldable pub config_from_env : (String → String) → Config
unfolding getenv
config_from_env environment = record {
  port = getenv environment "PORT" "8080";
  redis_url = getenv environment "REDIS_URL" "redis:6379";
}

abbrev pub subscribed_channels : List String
subscribed_channels = "leaderboard:updates" ∷ "telemetry:updates" ∷ []

-- A subscription: the messages that come until it breaks, and whether the context is cancelled by then.
pub record Subscription (M : Type 0) : Type 0 where
  pub payloads : List M
  pub cancelled : Bool

pub data Handler : Type 0 where
  health_handler stats_handler stream_handler : Handler

abbrev pub patterns : List (String × Handler)
patterns =
    ("/health", health_handler)
    ∷ ("/stats", stats_handler)
    ∷ ("/v1/stream", stream_handler)
    ∷ ("/v1/stream/", stream_handler)
    ∷ []

pub data Reply : Type 0 where
  no_content not_found healthy upgraded upgrade_failed : Reply
  connections : ℕ → Reply

abbrev pub cors_header : List (String × String)
cors_header =
    ("Access-Control-Allow-Origin", "*")
    ∷ ("Access-Control-Allow-Headers", "Authorization,Content-Type")
    ∷ []

module _ {M : Type 0} where
  abbrev pub publish_all : List M → Gateway M → Gateway M
  publish_all [] g = g
  publish_all (m ∷ payloads) g = publish_all payloads (publish m g)

  -- The loop of the subscriber, as far as its subscriptions broke.
  unfoldable pub run_subscriber : List (Subscription M) → Gateway M → Gateway M
  run_subscriber [] g = g
  run_subscriber (s ∷ rest) g =
      let g' = publish_all s.payloads g in
      let later = run_subscriber rest g' in if s.cancelled then g' else later

  abbrev pub stats : Gateway M → Reply
  stats g = connections (length g.hub.clients)

  -- An upgrade is told with the id of the new client, or fails.
  abbrev pub stream : Option String → Gateway M → Reply × Gateway M
  stream none g = (upgrade_failed, g)
  stream (some fresh) g = (upgraded, accept fresh g)

  abbrev pub respond : Option Handler → Option String → Gateway M → Reply × Gateway M
  respond none upgrade g = (not_found, g)
  respond (some health_handler) upgrade g = (healthy, g)
  respond (some stats_handler) upgrade g = (stats g, g)
  respond (some stream_handler) upgrade g = stream upgrade g

  -- The CORS middleware before the mux: the headers that it writes, the reply, and the gateway after.
  unfoldable pub serve_http :
      (List (String × Handler) → String → Option Handler)
      → Option String
      → String
      → String
      → Gateway M
      → List (String × String) × Reply × Gateway M
  unfolding accept
  serve_http mux upgrade method path g =
      let (reply, g') =
        if str_eq method "OPTIONS"
        then (no_content, g)
        else respond (mux patterns path) upgrade g in
      (cors_header, reply, g')
