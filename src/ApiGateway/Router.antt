-- ===== src/ApiGateway/Router.antt =====
-- main of services/api-gateway/main.go: the CORS middleware, the table of routes, and what a request
-- goes through. gin's choice of a route is a parameter, with its redirects of a path that a slash at
-- the end sets apart from a route; the decoding of a body, Redis, the tokens and the services are too.
use mathlib.Core.Option
use iicpc_summer_hackathon.Prelude.{
  ℕ, ◌*◌, ◌/◌, String, Bool, true, false, List, [], ◌∷◌, ◌++◌, Option, none, some, if◌then◌else◌,
  str_eq,
}
use iicpc_summer_hackathon.Prelude.Dict.{lookup}
use iicpc_summer_hackathon.ApiGateway.Config.{Config}
use iicpc_summer_hackathon.ApiGateway.Accounts.{
  Identity, Crypto, TeamStore, Credentials, RegisterRun, AuthReply, register, login, authenticate,
  limit_key,
}
use iicpc_summer_hackathon.ApiGateway.RateLimiter.{SortedSets, Outcome, allow}
use iicpc_summer_hackathon.ApiGateway.Proxy.{
  Header, Request, Response, ProxyReply, bad_gateway, outgoing, proxy_to, proxy_rewrite, set_header,
}
use iicpc_summer_hackathon.ApiGateway.Text.{replace_first}
use Prim.Native.String.{◌++◌ as str_append}
pub mod Protection
pub mod Upload

pub data Service : Type 0 where
  submission_service ws_gateway scoring_service bot_orchestrator : Service

-- What stands at the end of a route; `rewritten` takes the prefix that proxyRewrite replaces.
pub data Endpoint : Type 0 where
  health_check auth_register auth_login : Endpoint
  proxied : Service → Endpoint
  rewritten : Service → String → String → Endpoint

-- A route, whether JWTMiddleware stands before it, and the limit and the window in milliseconds of
-- its RateLimitMiddleware.
pub record Route : Type 0 where
  pub method : String
  pub pattern : String
  pub guarded : Bool
  pub limit : Option (ℕ × ℕ)
  pub endpoint : Endpoint

abbrev pub open_route : String → String → Endpoint → Route
open_route method pattern endpoint = record {
  method = method;
  pattern = pattern;
  guarded = false;
  limit = none;
  endpoint = endpoint;
}

abbrev pub api_route : String → String → Endpoint → Route
api_route method pattern endpoint = record (open_route method pattern endpoint) { guarded = true }

abbrev orch_proxy : Endpoint
orch_proxy = rewritten bot_orchestrator "/v1/sessions" "/api/sessions"

-- Ten uploads per minute.
abbrev pub submit_limit : ℕ × ℕ
submit_limit = (10, 60 * 1000)

unfoldable pub routes : List Route
routes =
    open_route "GET" "/health" health_check
    ∷ open_route "POST" "/v1/auth/register" auth_register
    ∷ open_route "POST" "/v1/auth/login" auth_login
    ∷ record (api_route "POST" "/v1/submissions" (proxied submission_service)) {
      limit = some submit_limit;
    }
    ∷ api_route "GET" "/v1/submissions" (proxied submission_service)
    ∷ api_route "GET" "/v1/submissions/:id" (proxied submission_service)
    ∷ api_route "POST" "/v1/sessions/start" orch_proxy
    ∷ api_route "POST" "/v1/sessions/:id/stop" orch_proxy
    ∷ api_route "GET" "/v1/sessions/:id" orch_proxy
    ∷ api_route "GET" "/v1/sessions" orch_proxy
    ∷ open_route "GET" "/v1/leaderboard" (proxied scoring_service)
    ∷ open_route "GET" "/v1/scores/:session_id" (proxied scoring_service)
    ∷ open_route "GET" "/v1/stream/:session_id" (proxied ws_gateway)
    ∷ open_route "GET" "/v1/stream" (proxied ws_gateway)
    ∷ []

-- What gin finds for a request.
pub data Found : Type 0 where
  found : Route → Found
  redirected : String → Found
  missing : Found

-- The libraries and services behind the gateway, with S the store of the rate limiter.
pub record Parts (S : Type 0) : Type 0 where
  pub config : Config
  pub crypto : Crypto
  pub sorted_sets : SortedSets S
  pub find : List Route → Request → Found
  pub decode : String → Option Credentials
  pub service : Service → Request → Option Response

-- What one request meets: the time in milliseconds, the uuid drawn, the client's address, how the
-- pipeline and the commands of Redis end, and whether http.NewRequestWithContext takes the address.
pub record Env (S : Type 0) : Type 0 where
  pub now : ℕ
  pub fresh : String
  pub client_ip : String
  pub pipeline : Outcome S
  pub register_run : RegisterRun
  pub redis_up : Bool
  pub request_made : Bool

-- The gateway's stores, and the requests that it has sent to the services, in their order.
pub record World (S : Type 0) : Type 0 where
  pub limits : S
  pub teams : TeamStore
  pub sent : List (Service × Request)

pub data Reply : Type 0 where
  preflight not_found denied too_many_requests healthy : Reply
  moved : String → Reply
  auth : AuthReply → Reply
  passed : ProxyReply → Reply

-- The headers that the CORS middleware writes.
unfoldable pub cors_header : Header
cors_header = set_header "Access-Control-Allow-Headers" "Authorization,Content-Type,X-Team-ID" (
    set_header "Access-Control-Allow-Methods" "GET,POST,PUT,DELETE,OPTIONS"
      (set_header "Access-Control-Allow-Origin" "*" []))

-- http.Header.Get, which gin's GetHeader is.
abbrev first_of_values : Option (List String) → String
first_of_values none = ""
first_of_values (some []) = ""
first_of_values (some (v ∷ vs)) = v

abbrev pub get_header : String → Header → String
get_header k h = first_of_values (lookup k h)

abbrev pub base_of : Config → Service → String
base_of config submission_service = config.submission_svc
base_of config ws_gateway = config.ws_gateway
base_of config scoring_service = config.scoring_url
base_of config bot_orchestrator = config.orchestrator_url

module _ {S : Type 0} (g : Parts S) (e : Env S) where
  abbrev record_sent : Service → Request → World S → World S
  record_sent s out w = record w { sent = w.sent ++ (s, out) ∷ [] }

  -- The proxies, with the request that is handed to http.Client; a redirect that the client follows is
  -- part of its answer.
  abbrev pub forward : Option Identity → Request → Service → Bool → World S → Reply × World S
  forward id r s false w = (passed bad_gateway, w)
  forward id r s true w = (
    passed (proxy_to (g.service s) (base_of g.config s) id r cors_header),
    record_sent s (outgoing (str_append (base_of g.config s) r.url) id r) w,
  )

  abbrev pub forward_rewritten :
      Option Identity → Request → Service → String → String → Bool → World S → Reply × World S
  forward_rewritten id r s old new false w = (passed bad_gateway, w)
  forward_rewritten id r s old new true w =
      let r' = record r { url = replace_first r.url old new } in
      (
        passed (proxy_rewrite (g.service s) (base_of g.config s) old new id r cors_header),
        record_sent s (outgoing (str_append (base_of g.config s) r'.url) id r') w,
      )

  unfoldable pub serve : Option Identity → Request → Endpoint → World S → Reply × World S
  unfolding register login cors_header proxy_to proxy_rewrite outgoing replace_first
  serve id r health_check w = (healthy, w)
  serve id r auth_register w =
      let (reply, teams) =
        register g.crypto g.config.jwt_secret e.register_run (e.now / 1000) e.fresh
          (g.decode r.body) w.teams in
      (auth reply, record w { teams = teams })
  serve id r auth_login w = (
    auth (login g.crypto g.config.jwt_secret e.redis_up (e.now / 1000) (g.decode r.body) w.teams),
    w,
  )
  serve id r (proxied s) w = forward id r s e.request_made w
  serve id r (rewritten s old new) w = forward_rewritten id r s old new e.request_made w

  -- RateLimitMiddleware.
  abbrev pub rate_limit : Option Identity → Option (ℕ × ℕ) → World S → Bool × World S
  rate_limit id none w = (true, w)
  rate_limit id (some (limit, window)) w =
      let (ok, s) =
        allow g.sorted_sets (limit_key id e.client_ip) limit window e.now e.fresh e.pipeline
          w.limits in
      (ok, record w { limits = s })

  abbrev pub admit : Option Identity → Request → Endpoint → Bool × World S → Reply × World S
  admit id r endpoint (true, w) = serve id r endpoint w
  admit id r endpoint (false, w) = (too_many_requests, w)

  -- JWTMiddleware, where it stands before the route; none is the 401.
  abbrev pub identify : Bool → Request → Option (Option Identity)
  identify false r = some none
  identify true r = Option.map some (
      authenticate g.crypto g.config.jwt_secret (e.now / 1000)
        (get_header "Authorization" r.header))

  abbrev pub enter : Route → Request → Option (Option Identity) → World S → Reply × World S
  enter route r none w = (denied, w)
  enter route r (some id) w = admit id r route.endpoint (rate_limit id route.limit w)

  abbrev pub dispatch : Request → Bool → Found → World S → Reply × World S
  dispatch r options (redirected url) w = (moved url, w)
  dispatch r true missing w = (preflight, w)
  dispatch r true (found route) w = (preflight, w)
  dispatch r false missing w = (not_found, w)
  dispatch r false (found route) w = enter route r (identify route.guarded r) w

  -- One request to the gateway.
  unfoldable pub handle : Request → World S → Reply × World S
  unfolding serve routes allow authenticate
  handle r w = dispatch r (str_eq r.method "OPTIONS") (g.find routes r) w
