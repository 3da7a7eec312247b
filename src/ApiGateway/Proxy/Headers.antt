-- ===== src/ApiGateway/Proxy/Headers.antt =====
-- The headers of a request that is passed on.
use iicpc_summer_hackathon.Prelude.{
  ◌≡◌, refl, ap, ◌∙◌, String, false, List, [], ◌∷◌, some, get_or, str_eq,
}
use iicpc_summer_hackathon.Prelude.Dict.{lookup, insert, lookup-insert, lookup-insert_self}
use iicpc_summer_hackathon.ApiGateway.Accounts.{Identity}
use iicpc_summer_hackathon.ApiGateway.Proxy.{
  Header, Request, copy_header, team_id_key, team_name_key, outgoing,
}

-- http.Header.Values.
abbrev pub values : String → Header → List String
values k h = get_or [] (lookup k h)

values-insert_self : (k : String) (vs : List String) (h : Header) → values k (insert k vs h) ≡ vs
values-insert_self k vs h = ap (get_or []) (lookup-insert_self k vs h)

lookup-insert_other :
    (k j : String) (vs : List String) (h : Header)
    → str_eq k j ≡ false
    → lookup j (insert k vs h) ≡ lookup j h
lookup-insert_other k j vs h ne = lookup-insert k j vs h ∙ rw ne refl

values-insert_other :
    (k j : String) (vs : List String) (h : Header)
    → str_eq k j ≡ false
    → values j (insert k vs h) ≡ values j h
values-insert_other k j vs h ne = ap (get_or []) (lookup-insert_other k j vs h ne)

-- The two identity headers of a request that is passed on with an identity.
pub identity-outgoing :
    (url : String) (id : Identity) (r : Request)
    → (values team_id_key (outgoing url (some id) r).header ≡ id.team_id ∷ [])
      × (values team_name_key (outgoing url (some id) r).header ≡ id.team_name ∷ [])
unfolding outgoing lookup
identity-outgoing url id r =
    let copied = copy_header r.header [] in
    let with_id = insert team_id_key (id.team_id ∷ []) copied in
    (
      values-insert_other team_name_key team_id_key (id.team_name ∷ []) with_id refl
          ∙ values-insert_self team_id_key (id.team_id ∷ []) copied,
      values-insert_self team_name_key (id.team_name ∷ []) with_id,
    )
