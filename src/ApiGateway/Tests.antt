-- ===== src/ApiGateway/Tests.antt =====
-- Tests of the rate limiter, on a store that holds the scores of every key, and of the accounts and
-- proxies.
use iicpc_summer_hackathon.Prelude.{
  ℕ, ◌+◌, String, true, ◌≡◌, sym, ap₂, inl, inr, str_eq, eq_iff, if◌then◌else◌, Bool-cases, refl,
  List, [], ◌∷◌, ◌++◌, some, none, Option, arith, ap,
}
use iicpc_summer_hackathon.Prelude.Dict.{lookup}
use iicpc_summer_hackathon.ApiGateway.Accounts.{
  Claims, Identity, Crypto, TeamStore, Credentials, RegisterRun, conflict, unauthorized, granted,
  day, hash_password, issue_token, reply_with, taken, register, finish_register, login,
  authenticate,
}
use iicpc_summer_hackathon.ApiGateway.Accounts.Sessions.{IsSigning, register-login, register_race}
use iicpc_summer_hackathon.ApiGateway.Proxy.{Request}
use iicpc_summer_hackathon.ApiGateway.RateLimiter.{allow_all}
use iicpc_summer_hackathon.ApiGateway.RateLimiter.Window.{by_history, allow_all-by_history}
mod Memory
mod Overlapping
mod Requests
use iicpc_summer_hackathon.ApiGateway.Tests.Memory.{memory, count_of, has_member, memory-IsStore}

abbrev pub requests : List (ℕ × String)
requests = (1000, "a") ∷ (1001, "b") ∷ (1002, "c") ∷ (2002, "d") ∷ []

allow_all-by_history_example :
    allow_all memory "team" 2 1000 requests [] ≡ by_history 2 1000 requests []
unfolding lookup
allow_all-by_history_example =
    allow_all-by_history memory count_of has_member memory-IsStore "team" 2 1000 (omega arith)
      requests [] ((λ b. refl), (λ member. refl))
      (omega arith, (omega arith, (omega arith, (omega arith, tt))))
      ((refl, (refl, (refl, tt))), ((refl, (refl, tt)), ((refl, tt), (tt, tt))))

-- Tokens for one team, and a hash that keeps the text.
abbrev reds : Identity
reds = record { team_id = "id1"; team_name = "reds" }

abbrev signed_name : Claims → Option String
signed_name claims = if str_eq claims.team_name "reds" then some "token" else none

abbrev pub toy : Crypto
toy = record {
  hex_sha256 = λ s. s;
  sign = λ secret claims. if str_eq claims.sub "id1" then signed_name claims else none;
  parse = λ secret t token. some reds;
}

identity_of_parts :
    (sub name : String)
    → sub ≡ "id1"
    → name ≡ "reds"
    → reds ≡ record { team_id = sub; team_name = name }
identity_of_parts sub name p q = ap₂ (λ x y. record { team_id = x; team_name = y }) (sym p) (sym q)

signed_reds :
    (secret token : String) (claims : Claims)
    → toy.sign secret claims ≡ some token
    → reds ≡ record { team_id = claims.sub; team_name = claims.team_name }
signed_reds secret token claims e = elim (Bool-cases (str_eq claims.sub "id1")) [
  | inl same ↦ elim (Bool-cases (str_eq claims.team_name "reds")) [
    | inl named ↦
        identity_of_parts claims.sub claims.team_name ((eq_iff claims.sub "id1").0 same)
          ((eq_iff claims.team_name "reds").0 named)
    | inr unnamed ↦ absurd (ground (arith, e, same, unnamed))
  ]
  | inr other ↦ absurd (ground (arith, e, other))
]

pub toy-IsSigning : IsSigning toy
toy-IsSigning = record {
  reads =
      λ secret token claims t signed from until. ap some (signed_reds secret token claims signed);
}

abbrev pub redis_up : RegisterRun
redis_up = record { exists_up = true; h_set_up = true; set_up = true }

abbrev pub red_team : Credentials
red_team = record { team_name = "reds"; password = "pw" }

abbrev pub no_teams : TeamStore
no_teams = record { hashes = []; texts = [] }

register-login_example :
    let (reply, s') = register toy "secret" redis_up 100 "id1" (some red_team) no_teams in
    let b' = record red_team { password = "other" } in
    (reply ≡ reply_with 100 "id1" (issue_token toy "secret" 100 "id1" "reds"))
    × (login toy "secret" true 200 (some b') s' ≡ (
        if str_eq (hash_password toy "pw") (hash_password toy "other")
        then granted "token" "id1" (200 + day)
        else unauthorized))
    × (register toy "secret" redis_up 200 "id2" (some b') s' ≡ (conflict, s'))
    × (authenticate toy "secret" 300 "Bearer token" ≡ some reds)
unfolding lookup
register-login_example =
    register-login toy "secret" redis_up 100 "id1" red_team no_teams refl refl toy-IsSigning refl
      200 300 "other" "token" "id2" redis_up refl refl refl (omega arith) (omega arith)

register_race_example :
    let b' = record red_team { password = "other" } in
    let (first, s1) =
      finish_register toy "secret" redis_up 100 "id1" red_team
        (taken true "reds" no_teams)
        no_teams in
    let (second, s2) =
      finish_register toy "secret" redis_up 101 "id2" b' (taken true "reds" no_teams) s1 in
    (first ≡ reply_with 100 "id1" (issue_token toy "secret" 100 "id1" "reds"))
    × (second ≡ reply_with 101 "id2" (issue_token toy "secret" 101 "id2" "reds"))
    × (login toy "secret" true 200 (some red_team) s2 ≡ (
        if str_eq (hash_password toy "other") (hash_password toy "pw")
        then reply_with 200 "id2" (issue_token toy "secret" 200 "id2" "reds")
        else unauthorized))
unfolding lookup
register_race_example =
    register_race toy "secret" redis_up redis_up 100 101 "id1" "id2" red_team "other" no_teams refl
      refl refl refl 200

abbrev pub upload : Request
upload = record {
  method = "POST";
  url = "/v1/submissions";
  header = ("X-Team-Id", "id9" ∷ []) ∷ ("Accept", "a" ∷ "b" ∷ []) ∷ [];
  body = "";
}
