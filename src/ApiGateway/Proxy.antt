-- ===== src/ApiGateway/Proxy.antt =====
-- proxyTo and proxyRewrite of services/api-gateway/main.go. The service behind the gateway is a
-- parameter, and header names are in the canonical form of net/http.
use Prim.Native.String.{◌++◌ as str_append}
use iicpc_summer_hackathon.Prelude.{
  ℕ, String, List, [], ◌∷◌, ◌++◌, Option, none, some, get_or, if◌then◌else◌, str_eq,
}
use iicpc_summer_hackathon.Prelude.Dict.{Dict, lookup, insert, delete}
use iicpc_summer_hackathon.ApiGateway.Text.{replace_first}
use iicpc_summer_hackathon.ApiGateway.Accounts.{Identity}
pub mod Headers

abbrev pub Header : Type 0
Header = Dict (List String)

pub record Request : Type 0 where
  pub method : String
  pub url : String
  pub header : Header
  pub body : String

pub record Response : Type 0 where
  pub status : ℕ
  pub header : Header
  pub body : String

abbrev pub add_header : String → String → Header → Header
add_header k v h = insert k (get_or [] (lookup k h) ++ v ∷ []) h

abbrev pub add_values : String → List String → Header → Header
add_values k [] h = h
add_values k (v ∷ vs) h = add_values k vs (add_header k v h)

-- The loop over the headers.
unfoldable pub copy_header : Header → Header → Header
copy_header [] h = h
copy_header ((k, vs) ∷ rest) h = copy_header rest (add_values k vs h)

abbrev pub team_id_key : String
team_id_key = "X-Team-Id"

abbrev pub team_name_key : String
team_name_key = "X-Team-Name"

abbrev pub set_identity : Option Identity → Header → Header
set_identity none h = h
set_identity (some id) h =
    insert team_name_key (id.team_name ∷ []) (insert team_id_key (id.team_id ∷ []) h)

-- The request that is handed to http.Client, to this address. What net/http makes of some headers
-- when it sends it (it leaves out Content-Length and may add Accept-Encoding) is the library's.
unfoldable pub outgoing : String → Option Identity → Request → Request
unfolding copy_header
outgoing url id r = record r { url = url; header = set_identity id (copy_header r.header []) }

-- gin's Context.Header, which replaces, and takes an empty value as a removal.
abbrev pub set_header : String → String → Header → Header
set_header k v h = if str_eq v "" then delete k h else insert k (v ∷ []) h

abbrev pub set_values : String → List String → Header → Header
set_values k [] h = h
set_values k (v ∷ vs) h = set_values k vs (set_header k v h)

-- The loop over the answer's headers, onto those that are written already.
unfoldable pub write_header : Header → Header → Header
write_header [] h = h
write_header ((k, vs) ∷ rest) h = write_header rest (set_values k vs h)

-- 502 where the request cannot be made or the service does not answer.
pub data ProxyReply : Type 0 where
  bad_gateway : ProxyReply
  answered : Response → ProxyReply

abbrev pub pass_on : Header → Option Response → ProxyReply
pass_on written none = bad_gateway
pass_on written (some resp) = answered (record resp { header = write_header resp.header written })

unfoldable pub proxy_to :
    (Request → Option Response) → String → Option Identity → Request → Header → ProxyReply
unfolding outgoing write_header
proxy_to service target_base id r written =
    pass_on written (service (outgoing (str_append target_base r.url) id r))

unfoldable pub proxy_rewrite :
    (Request → Option Response)
    → String
    → String
    → String
    → Option Identity
    → Request
    → Header
    → ProxyReply
unfolding proxy_to replace_first
proxy_rewrite service target_base old_prefix new_prefix id r written =
    proxy_to service target_base id (record r { url = replace_first r.url old_prefix new_prefix })
      written
