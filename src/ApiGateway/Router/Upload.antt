-- ===== src/ApiGateway/Router/Upload.antt =====
-- A team's first way through the gateway: its registration and an upload.
use Prim.Native.String.{◌++◌ as str_append}
use mathlib.Core.Option
use iicpc_summer_hackathon.Prelude.{
  ◌+◌, ◌*◌, ◌/◌, ◌≤◌, ◌<◌, String, ◌≡◌, ap, ap₂, ◌∙◌, true, false, [], ◌∷◌, ◌++◌, some, str_eq,
}
use iicpc_summer_hackathon.ApiGateway.Accounts.{
  Identity, Credentials, day, granted, reply_with, is_incomplete, taken, save_team, hash_password,
  issue_token, register, authenticate,
}
use iicpc_summer_hackathon.ApiGateway.Accounts.Sessions.{
  IsSigning, register-free, authenticate-issue_token,
}
use iicpc_summer_hackathon.ApiGateway.RateLimiter.{allow}
use iicpc_summer_hackathon.ApiGateway.Proxy.{Request, team_id_key, team_name_key, outgoing}
use iicpc_summer_hackathon.ApiGateway.Proxy.Headers.{values, identity-outgoing}
use iicpc_summer_hackathon.ApiGateway.Router.{
  submission_service, auth_register, proxied, Route, open_route, api_route, submit_limit, routes,
  found, Parts, Env, World, auth, get_header, base_of, serve, forward, admit, identify, enter,
  dispatch, handle,
}

abbrev pub register_route : Route
register_route = open_route "POST" "/v1/auth/register" auth_register

abbrev pub upload_route : Route
upload_route = record (api_route "POST" "/v1/submissions" (proxied submission_service)) {
  limit = some submit_limit;
}

module _ {S : Type 0} (g : Parts S) where
  -- gin takes a request, which is no preflight, for this route.
  pub record Reaches (route : Route) (r : Request) : Type 0 where
    pub no_preflight : str_eq r.method "OPTIONS" ≡ false
    pub finds : g.find routes r ≡ found route

  handle-Reaches :
      (e : Env S) (route : Route) (r : Request) (w : World S)
      → Reaches route r
      → handle g e r w ≡ enter g e route r (identify g e route.guarded r) w
  unfolding handle
  handle-Reaches e route r w h =
      ap₂ (λ options f. dispatch g e r options f w) h.no_preflight h.finds

  module _ (e : Env S) (q : Request) (b : Credentials) (w : World S) (token : String)
      (there : Reaches register_route q) (body : g.decode q.body ≡ some b)
      (full : is_incomplete b ≡ false)
      (free : taken e.register_run.exists_up b.team_name w.teams ≡ false)
      (issued : issue_token g.crypto g.config.jwt_secret (e.now / 1000) e.fresh b.team_name
        ≡ some token) where
    -- The gateway after the registration.
    abbrev registered : World S
    registered = record w {
      teams =
          save_team e.register_run e.fresh b.team_name (hash_password g.crypto b.password) w.teams;
    }

    handle-register :
        handle g e q w ≡ (auth (granted token e.fresh (e.now / 1000 + day)), registered)
    unfolding serve
    handle-register =
        let secret = g.config.jwt_secret in
        let now = e.now / 1000 in
        handle-Reaches e register_route q w there
        ∙ ap
            (λ o.
              let (reply, teams) = register g.crypto secret e.register_run now e.fresh o w.teams in
              (auth reply, record w { teams = teams }))
            body
        ∙ ap (λ out. (auth out.0, record w { teams = out.1 }))
            (register-free g.crypto secret e.register_run now e.fresh b w.teams full free)
        ∙ ap (λ o. (auth (reply_with now e.fresh o), registered)) issued

  module _ (e : Env S) (r : Request) (w : World S) (id : Identity) (there : Reaches upload_route r)
      (known : authenticate g.crypto g.config.jwt_secret
          (e.now / 1000)
          (get_header "Authorization" r.header)
        ≡ some id)
      (room : (allow g.sorted_sets id.team_id 10 (60 * 1000) e.now e.fresh e.pipeline w.limits).0
        ≡ true)
      (made : e.request_made ≡ true) where
    sent-upload :
        (handle g e r w).1.sent
        ≡ w.sent
          ++ (
            submission_service,
            outgoing (str_append (base_of g.config submission_service) r.url) (some id) r,
          )
            ∷ []
    unfolding serve
    sent-upload =
        let s =
          (allow g.sorted_sets id.team_id 10 (60 * 1000) e.now e.fresh e.pipeline w.limits).1 in
        ap (λ x. x.1.sent) (handle-Reaches e upload_route r w there)
        ∙ ap (λ o. (enter g e upload_route r (Option.map some o) w).1.sent) known
        ∙ ap
            (λ ok.
              (admit g e (some id) r (proxied submission_service)
                (ok, record w { limits = s })).1.sent)
            room
        ∙ ap
            (λ ok. (forward g e (some id) r submission_service ok (record w { limits = s })).1.sent)
            made

-- A team registers under a free name, with a complete body and a token that is signed, and uploads with
-- that token within the day that it lasts, while the limiter lets the upload through: the registration
-- is answered with the token and the new id, and then exactly one request is sent, to the submission
-- service, and its identity headers are the new id and the team's name.
pub register-upload :
    {S : Type 0} (g : Parts S)
    → IsSigning g.crypto
    → (e e' : Env S) (q r : Request) (b : Credentials) (w : World S) (token : String)
    → Reaches g register_route q
    → g.decode q.body ≡ some b
    → is_incomplete b ≡ false
    → taken e.register_run.exists_up b.team_name w.teams ≡ false
    → issue_token g.crypto g.config.jwt_secret (e.now / 1000) e.fresh b.team_name ≡ some token
    → Reaches g upload_route r
    → get_header "Authorization" r.header ≡ str_append "Bearer " token
    → e.now / 1000 ≤ e'.now / 1000
    → e'.now / 1000 < e.now / 1000 + day
    → (allow g.sorted_sets e.fresh 10 (60 * 1000) e'.now e'.fresh e'.pipeline w.limits).0 ≡ true
    → e'.request_made ≡ true
    → let (reply, w1) = handle g e q w in
      (reply ≡ auth (granted token e.fresh (e.now / 1000 + day)))
      × ((out : Request) × ((handle g e' r w1).1.sent ≡ w.sent ++ (submission_service, out) ∷ [])
          × (values team_id_key out.header ≡ e.fresh ∷ [])
          × (values team_name_key out.header ≡ b.team_name ∷ []))
register-upload g laws e e' q r b w token there body full free issued there' bearer from until room
      made =
    let secret = g.config.jwt_secret in
    let id : Identity = record { team_id = e.fresh; team_name = b.team_name } in
    let url = str_append (base_of g.config submission_service) r.url in
    let first = handle-register g e q b w token there body full free issued in
    let w1 = registered g e q b w token there body full free issued in
    let known : authenticate g.crypto secret (e'.now / 1000) (get_header "Authorization" r.header)
        ≡ some id =
      ap (authenticate g.crypto secret (e'.now / 1000)) bearer
      ∙ authenticate-issue_token g.crypto laws secret (e.now / 1000) (e'.now / 1000) e.fresh
          b.team_name token issued from until in
    let (team, name) = identity-outgoing url id r in
    (
      ap (λ o. o.0) first,
      (
        outgoing url (some id) r,
        ap (λ o. (handle g e' r o.1).1.sent) first
            ∙ sent-upload g e' r w1 id there' known room made,
        team,
        name,
      ),
    )
