-- ===== src/ApiGateway/Router/Protection.antt =====
-- What the requests have in common that the gateway sends to the services.
use mathlib.Core.Option
use iicpc_summer_hackathon.Prelude.{
  ℕ, ◌/◌, String, ◌≡◌, ◌⊎◌, refl, ap, subst, sym, inl, inr, Bool, true, false, List, [], ◌∷◌, ◌++◌,
  Option, none, some, All, All-get_elem?, get_elem?, str_eq, Bool-cases, Option-cases,
}
use iicpc_summer_hackathon.ApiGateway.Accounts.{Identity, authenticate}
use iicpc_summer_hackathon.ApiGateway.Proxy.{Request, team_id_key, team_name_key, outgoing}
use iicpc_summer_hackathon.ApiGateway.Proxy.Headers.{values, identity-outgoing}
use iicpc_summer_hackathon.ApiGateway.Text.{replace_first}
use iicpc_summer_hackathon.ApiGateway.Router.{
  Service, submission_service, ws_gateway, scoring_service, bot_orchestrator, Endpoint,
  health_check, auth_register, auth_login, proxied, rewritten, Route, routes, Found, found,
  redirected, missing, Parts, Env, World, get_header, serve, rate_limit, admit, identify, forward,
  forward_rewritten, enter, dispatch, handle,
}

-- The services that answer without a token.
abbrev pub is_public : Service → Bool
is_public submission_service = false
is_public ws_gateway = true
is_public scoring_service = true
is_public bot_orchestrator = false

abbrev service_of : Endpoint → Option Service
service_of (proxied s) = some s
service_of (rewritten s old new) = some s
service_of _ = none

abbrev needs_token : Option Service → Bool
needs_token none = false
needs_token (some s) = elim (is_public s) [ true ↦ false | false ↦ true ]

abbrev IsGuarded : Route → Type 0
IsGuarded route = needs_token (service_of route.endpoint) ≡ true → route.guarded ≡ true

routes-IsGuarded : All IsGuarded routes
unfolding routes
routes-IsGuarded = search tt

-- gin answers with one of the routes that it was given.
pub record IsRouting {S : Type 0} (g : Parts S) : Type 0 where
  pub picks :
      (rs : List Route) (r : Request) (route : Route)
      → g.find rs r ≡ found route
      → (i : ℕ) × (get_elem? rs i ≡ some route)

module _ {S : Type 0} (g : Parts S) (e : Env S) where
  -- The identity headers of a request are those of the sender's token.
  abbrev pub Vouched : Request → Request → Type 0
  Vouched r out =
      (id : Identity) × (authenticate g.crypto g.config.jwt_secret (e.now / 1000)
          (get_header "Authorization" r.header)
        ≡ some id)
      × (values team_id_key out.header ≡ id.team_id ∷ [])
      × (values team_name_key out.header ≡ id.team_name ∷ [])

  -- What an end of a route does to the requests that were sent.
  Sends : Option Identity → Endpoint → World S → World S → Type 0
  Sends id endpoint w w' =
      (w'.sent ≡ w.sent)
      ⊎ ((s : Service) × (r : Request) × (url : String) × (w'.sent
            ≡ w.sent ++ (s, outgoing url id r) ∷ [])
          × (service_of endpoint ≡ some s))

  serve-Sends :
      (id : Option Identity) (r : Request) (endpoint : Endpoint) (w : World S)
      → Sends id endpoint w (serve g e id r endpoint w).1
  unfolding serve Sends
  serve-Sends id r health_check w = inl refl
  serve-Sends id r auth_register w = inl refl
  serve-Sends id r auth_login w = inl refl
  serve-Sends id r (proxied s) w = made e.request_made
    where
      made : (ok : Bool) → Sends id (proxied s) w (forward g e id r s ok w).1
      made false = inl refl
      made true = inr (s, r, _, refl, refl)
  serve-Sends id r (rewritten s old new) w = made e.request_made
    where
      made :
          (ok : Bool)
          → Sends id (rewritten s old new) w (forward_rewritten g e id r s old new ok w).1
      made false = inl refl
      made true = inr (s, record r { url = replace_first r.url old new }, _, refl, refl)

  sent-rate_limit :
      (id : Option Identity) (limit : Option (ℕ × ℕ)) (w : World S)
      → (rate_limit g e id limit w).1.sent ≡ w.sent
  sent-rate_limit id none w = refl
  sent-rate_limit id (some (limit, window)) w = refl

  admit-Sends :
      (id : Option Identity) (r : Request) (endpoint : Endpoint) (pass : Bool × World S)
      → Sends id endpoint pass.1 (admit g e id r endpoint pass).1
  unfolding Sends
  admit-Sends id r endpoint (true, w) = serve-Sends id r endpoint w
  admit-Sends id r endpoint (false, w) = inl refl

  enter-Sends :
      (route : Route) (r : Request) (id : Option Identity) (w : World S)
      → Sends id route.endpoint w (enter g e route r (some id) w).1
  unfolding Sends
  enter-Sends route r id w =
      subst
        (λ before.
          let w' = (enter g e route r (some id) w).1 in
          (w'.sent ≡ before)
          ⊎ ((s : Service) × (r : Request) × (url : String) × (w'.sent
                ≡ before ++ (s, outgoing url id r) ∷ [])
              × (service_of route.endpoint ≡ some s)))
        (sent-rate_limit id route.limit w)
        (admit-Sends id r route.endpoint (rate_limit g e id route.limit w))

  -- What a request to the gateway does to the requests that were sent.
  abbrev pub Guards : Request → World S → World S → Type 0
  Guards r w w' =
      (w'.sent ≡ w.sent)
      ⊎ ((s : Service) × (out : Request) × (w'.sent ≡ w.sent ++ (s, out) ∷ [])
          × ((is_public s ≡ true) ⊎ Vouched r out))

  public-or-guarded :
      (route : Route) (s : Service)
      → IsGuarded route
      → service_of route.endpoint ≡ some s
      → (is_public s ≡ true) ⊎ (route.guarded ≡ true)
  public-or-guarded route s safe same = go s same
    where
      go :
          (s : Service)
          → service_of route.endpoint ≡ some s
          → (is_public s ≡ true) ⊎ (route.guarded ≡ true)
      go submission_service same = inr (safe (ap needs_token same))
      go ws_gateway same = inl refl
      go scoring_service same = inl refl
      go bot_orchestrator same = inr (safe (ap needs_token same))

  open-Guards :
      (route : Route) (r : Request) (w : World S)
      → IsGuarded route
      → route.guarded ≡ false
      → Guards r w (enter g e route r (some none) w).1
  unfolding Sends
  open-Guards route r w safe bare = elim (enter-Sends route r none w) [
    | inl same ↦ inl same
    | inr (s, r', url, added, there) ↦
        inr (s, outgoing url none r', added, inl (public s (public-or-guarded route s safe there)))
  ]
    where
      public : (s : Service) → (is_public s ≡ true) ⊎ (route.guarded ≡ true) → is_public s ≡ true
      public s (inl open_to_all) = open_to_all
      public s (inr guarded) = cc

  known-Guards :
      (route : Route) (r : Request) (id : Identity) (w : World S)
      → authenticate g.crypto g.config.jwt_secret
          (e.now / 1000)
          (get_header "Authorization" r.header)
        ≡ some id
      → Guards r w (enter g e route r (some (some id)) w).1
  unfolding Sends
  known-Guards route r id w known = elim (enter-Sends route r (some id) w) [
    | inl same ↦ inl same
    | inr (s, r', url, added, there) ↦
        let (team, name) = identity-outgoing url id r' in
        inr (s, outgoing url (some id) r', added, inr (id, known, team, name))
  ]

  guarded-Guards :
      (route : Route) (r : Request) (w : World S)
      → Guards r w (enter g e route r (identify g e true r) w).1
  guarded-Guards route r w =
      let token = get_header "Authorization" r.header in
      elim (Option-cases (authenticate g.crypto g.config.jwt_secret (e.now / 1000) token)) [
        | inl none_given ↦
            inl (ap (λ o. (enter g e route r (Option.map some o) w).1.sent) none_given)
        | inr (id, known) ↦
            subst (λ o. Guards r w (enter g e route r (Option.map some o) w).1) (sym known)
              (known-Guards route r id w known)
      ]

  found-Guards :
      (route : Route) (r : Request) (w : World S)
      → IsGuarded route
      → Guards r w (enter g e route r (identify g e route.guarded r) w).1
  found-Guards route r w safe = elim (Bool-cases route.guarded) [
    | inl guarded ↦
        subst (λ b. Guards r w (enter g e route r (identify g e b r) w).1) (sym guarded)
          (guarded-Guards route r w)
    | inr bare ↦
        subst (λ b. Guards r w (enter g e route r (identify g e b r) w).1) (sym bare)
          (open-Guards route r w safe bare)
  ]

  dispatch-Guards :
      (r : Request) (options : Bool) (f : Found) (w : World S)
      → ((route : Route) → f ≡ found route → IsGuarded route)
      → Guards r w (dispatch g e r options f w).1
  dispatch-Guards r options (redirected url) w safe = inl refl
  dispatch-Guards r true missing w safe = inl refl
  dispatch-Guards r true (found route) w safe = inl refl
  dispatch-Guards r false missing w safe = inl refl
  dispatch-Guards r false (found route) w safe = found-Guards route r w (safe route refl)

  -- While gin answers with a route of the table, a request to the gateway sends at most one request on.
  -- One that reaches the submission service or the orchestrator had a token that JWTMiddleware accepts
  -- at that time, and its two identity headers are exactly the team of that token, whatever headers the
  -- client sent; only the scoring service and the WebSocket gateway are reached without a token.
  pub handle-Guards : IsRouting g → (r : Request) (w : World S) → Guards r w (handle g e r w).1
  unfolding handle
  handle-Guards law r w =
      dispatch-Guards r (str_eq r.method "OPTIONS") (g.find routes r) w (λ route there.
        let (i, at) = law.picks routes r route there in
        All-get_elem? IsGuarded routes i route routes-IsGuarded at)
