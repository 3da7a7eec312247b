-- ===== src/ApiGateway/Accounts.antt =====
-- Accounts and tokens of services/api-gateway/main.go: hashPassword, AuthHandler, JWTMiddleware and
-- RateLimitMiddleware. SHA-256 with hex, the JWT library, Redis and the uuid library are parameters.
use Prim.Native.String.{◌++◌ as str_append}
use iicpc_summer_hackathon.Prelude.{
  ℕ, ◌+◌, ◌*◌, String, Bool, true, false, [], ◌∷◌, Option, none, some, get_or, if◌then◌else◌,
  str_eq, ◌||◌,
}
use iicpc_summer_hackathon.Prelude.Dict.{Dict, lookup, insert}
use iicpc_summer_hackathon.ApiGateway.Text.{trim_prefix}
pub mod Sessions

-- The claims of a token: the subject, the team's name, and when it was issued and ends, in seconds.
pub record Claims : Type 0 where
  pub sub : String
  pub team_name : String
  pub iat : ℕ
  pub exp : ℕ

-- Who the handlers behind the middleware see: the claims sub and team_name as "%v" prints them.
pub record Identity : Type 0 where
  pub team_id : String
  pub team_name : String

-- SHA-256 in hexadecimal digits, and the signing and reading of tokens with HMAC under a secret, the
-- reading at a time; none is an error, or a token that is not valid.
pub record Crypto : Type 0 where
  pub hex_sha256 : String → String
  pub sign : String → Claims → Option String
  pub parse : String → ℕ → String → Option Identity

-- What Redis holds for the accounts: hashes and texts by key.
pub record TeamStore : Type 0 where
  pub hashes : Dict (Dict String)
  pub texts : Dict String

-- A request's body, where it decodes; both fields are required, so an empty one is an error.
pub record Credentials : Type 0 where
  pub team_name : String
  pub password : String

-- Whether Redis answers Exists, HSet and Set; the errors of the three are not looked at.
pub record RegisterRun : Type 0 where
  pub exists_up : Bool
  pub h_set_up : Bool
  pub set_up : Bool

pub data AuthReply : Type 0 where
  bad_request : AuthReply
  conflict : AuthReply
  unauthorized : AuthReply
  server_error : AuthReply
  granted : String → String → ℕ → AuthReply

abbrev pub day : ℕ
day = 24 * 60 * 60

abbrev pub team_key : String → String
team_key name = str_append "team:" name

abbrev pub claims_of : ℕ → String → String → Claims
claims_of now team_id team_name = record {
  sub = team_id;
  team_name = team_name;
  iat = now;
  exp = now + day;
}

abbrev pub is_incomplete : Credentials → Bool
is_incomplete b = str_eq b.team_name "" || str_eq b.password ""

-- The answer to Exists, where an error counts as 0.
abbrev pub taken : Bool → String → TeamStore → Bool
taken up name s = elim (lookup (team_key name) s.hashes) [ none ↦ false | some fields ↦ up ]

-- The writes of Register; a hash keeps the fields that are not written.
abbrev pub save_team : RegisterRun → String → String → String → TeamStore → TeamStore
save_team run team_id name hashed s =
    let old = get_or [] (lookup (team_key name) s.hashes) in
    let fields = insert "password" hashed (insert "team_id" team_id old) in
    record {
      hashes = if run.h_set_up then insert (team_key name) fields s.hashes else s.hashes;
      texts = if run.set_up then insert (str_append "team_id:" team_id) name s.texts else s.texts;
    }

abbrev pub reply_with : ℕ → String → Option String → AuthReply
reply_with now team_id none = server_error
reply_with now team_id (some token) = granted token team_id (now + day)

module _ (c : Crypto) where
  unfoldable pub hash_password : String → String
  hash_password password = c.hex_sha256 (str_append "orderfurnace-salt:" password)

  abbrev pub issue_token : String → ℕ → String → String → Option String
  issue_token secret now team_id team_name = c.sign secret (claims_of now team_id team_name)

  -- Register from the answer to Exists on.
  unfoldable pub finish_register :
      String → RegisterRun → ℕ → String → Credentials → Bool → TeamStore → AuthReply × TeamStore
  unfolding hash_password
  finish_register secret run now team_id b true s = (conflict, s)
  finish_register secret run now team_id b false s = (
    reply_with now team_id (issue_token secret now team_id b.team_name),
    save_team run team_id b.team_name (hash_password b.password) s,
  )

  -- Register, with the new id.
  unfoldable pub register :
      String → RegisterRun → ℕ → String → Option Credentials → TeamStore → AuthReply × TeamStore
  unfolding finish_register
  register secret run now team_id none s = (bad_request, s)
  register secret run now team_id (some b) s =
      if is_incomplete b
      then (bad_request, s)
      else finish_register secret run now team_id b (taken run.exists_up b.team_name s) s

  -- Login from the answer to HGetAll on; an unknown team has no fields.
  abbrev pub finish_login : String → ℕ → Credentials → Option (Dict String) → AuthReply
  finish_login secret now b none = unauthorized
  finish_login secret now b (some []) = unauthorized
  finish_login secret now b (some (f ∷ fields)) =
      let stored = f ∷ fields in
      let team_id = get_or "" (lookup "team_id" stored) in
      if str_eq (get_or "" (lookup "password" stored)) (hash_password b.password)
      then reply_with now team_id (issue_token secret now team_id b.team_name)
      else unauthorized

  unfoldable pub login : String → Bool → ℕ → Option Credentials → TeamStore → AuthReply
  unfolding hash_password
  login secret up now none s = bad_request
  login secret up now (some b) s =
      if is_incomplete b
      then bad_request
      else finish_login secret now b (if up then lookup (team_key b.team_name) s.hashes else none)

  -- JWTMiddleware: the identity that the handlers behind it see, or none for 401.
  unfoldable pub authenticate : String → ℕ → String → Option Identity
  authenticate secret now header =
      if str_eq header "" then none else c.parse secret now (trim_prefix header "Bearer ")

-- The key of RateLimitMiddleware: the team, where a token told it, or else the client's address.
abbrev pub limit_key : Option Identity → String → String
limit_key none client_ip = client_ip
limit_key (some id) client_ip = id.team_id
