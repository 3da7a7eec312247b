-- ===== src/ApiGateway/Tests/Requests.antt =====
-- Tests of the router and of the limit, with a find that takes the first route of the request's method
-- whose pattern is its address.
use iicpc_summer_hackathon.Prelude.{
  ℕ, suc, ◌+◌, ◌≤◌, ◌≡◌, refl, inl, inr, true, ◌&&◌, List, [], ◌∷◌, none, some, get_elem?, length,
  str_eq, if◌then◌else◌, arith, Bool-cases,
}
use iicpc_summer_hackathon.Prelude.Dict.{Dict, lookup, insert}
use iicpc_summer_hackathon.Prelude.Int.{sub_ℕ}
use iicpc_summer_hackathon.ApiGateway.Config.{config_from_env}
use iicpc_summer_hackathon.ApiGateway.Accounts.{authenticate, day, granted as granted_token}
use iicpc_summer_hackathon.ApiGateway.Text.{strip_prefix}
use iicpc_summer_hackathon.ApiGateway.Proxy.{Request, outgoing, copy_header}
use iicpc_summer_hackathon.ApiGateway.RateLimiter.{over, executed, allow, allow_all}
use iicpc_summer_hackathon.ApiGateway.RateLimiter.Grants.{granted, allow_all-limited}
use iicpc_summer_hackathon.ApiGateway.Router.{
  Route, Found, found, missing, Parts, Env, World, handle, routes, serve, auth, submission_service,
}
use iicpc_summer_hackathon.ApiGateway.Router.Protection.{IsRouting, Guards, handle-Guards}
use iicpc_summer_hackathon.ApiGateway.Router.Upload.{register-upload}
use iicpc_summer_hackathon.ApiGateway.Proxy.Headers.{values}
use iicpc_summer_hackathon.ApiGateway.Tests.Memory.{memory, count_of, has_member, memory-IsStore}
use iicpc_summer_hackathon.ApiGateway.Tests.{
  red_team, toy-IsSigning, requests, toy, no_teams, redis_up, upload,
}

allow_all-limited_example :
    length (over (sub_ℕ 2500 1000) (granted requests (allow_all memory "team" 2 1000 requests [])))
    ≤ 2
unfolding lookup
allow_all-limited_example =
    allow_all-limited memory count_of has_member memory-IsStore "team" 2 1000 (omega arith) 2500
      requests [] ((λ b. refl), (λ member. refl))
      (omega arith, (omega arith, (omega arith, (omega arith, tt))))
      ((refl, (refl, (refl, tt))), ((refl, (refl, tt)), ((refl, tt), (tt, tt))))
      (omega arith, (omega arith, (omega arith, (omega arith, tt))))

abbrev find_exact : List Route → Request → Found
find_exact [] r = missing
find_exact (route ∷ rs) r =
    if str_eq route.method r.method && str_eq route.pattern r.url
    then found route
    else find_exact rs r

abbrev gateway : Parts (Dict (Dict ℕ))
gateway = record {
  config = config_from_env (λ key. "");
  crypto = toy;
  sorted_sets = memory;
  find = find_exact;
  decode = λ body. none;
  service = λ s r. some (record { status = 202; header = []; body = "" });
}

abbrev upload_env : Env (Dict (Dict ℕ))
upload_env = record {
  now = 5000;
  fresh = "u1";
  client_ip = "10.0.0.1";
  pipeline = executed;
  register_run = redis_up;
  redis_up = true;
  request_made = true;
}

abbrev no_requests : World (Dict (Dict ℕ))
no_requests = record { limits = []; teams = no_teams; sent = [] }

found-injective : (a b : Route) → found a ≡ found b → a ≡ b
found-injective a b e = cc

find_exact-picks :
    (rs : List Route) (r : Request) (route : Route)
    → find_exact rs r ≡ found route
    → (i : ℕ) × (get_elem? rs i ≡ some route)
find_exact-picks [] r route e = absurd (ground (arith, e))
find_exact-picks (first ∷ rs) r route e =
    elim (Bool-cases (str_eq first.method r.method && str_eq first.pattern r.url)) [
      | inl here ↦ (0, ground (arith, e, here))
      | inr not_here ↦
          let (i, there) = find_exact-picks rs r route (ground (arith, e, not_here)) in
          (suc i, there)
    ]

gateway-IsRouting : IsRouting gateway
gateway-IsRouting = record { picks = find_exact-picks }

abbrev signed_upload : Request
signed_upload = record upload { header = ("Authorization", "Bearer token" ∷ []) ∷ upload.header }

handle-Guards_example :
    Guards gateway upload_env signed_upload no_requests
      (handle gateway upload_env signed_upload no_requests).1
handle-Guards_example = handle-Guards gateway upload_env gateway-IsRouting signed_upload no_requests

-- The upload was sent on.
upload_sent : length (handle gateway upload_env signed_upload no_requests).1.sent ≡ 1
unfolding handle serve routes authenticate allow lookup insert strip_prefix outgoing copy_header
upload_sent = refl

-- The registration of a team, and its upload.
abbrev accounts : Parts (Dict (Dict ℕ))
accounts = record gateway { decode = λ body. some red_team }

abbrev registration : Request
registration = record { method = "POST"; url = "/v1/auth/register"; header = []; body = "{}" }

abbrev first_env : Env (Dict (Dict ℕ))
first_env = record upload_env { now = 1000; fresh = "id1" }

register-upload_example :
    let (reply, w1) = handle accounts first_env registration no_requests in
    (reply ≡ auth (granted_token "token" "id1" (1 + day)))
    × ((out : Request) × ((handle accounts upload_env signed_upload w1).1.sent
          ≡ (submission_service, out) ∷ [])
        × (values "X-Team-Id" out.header ≡ "id1" ∷ [])
        × (values "X-Team-Name" out.header ≡ "reds" ∷ []))
unfolding routes allow lookup insert
register-upload_example =
    register-upload accounts toy-IsSigning first_env upload_env registration signed_upload red_team
      no_requests "token" (record { no_preflight = refl; finds = refl }) refl refl refl refl
      (record { no_preflight = refl; finds = refl }) refl (omega arith) (omega arith) refl refl
