-- ===== src/ApiGateway/Accounts/Sessions.antt =====
-- Registration, login and tokens together.
use Prim.Native.String.{◌++◌ as str_append}
use iicpc_summer_hackathon.Prelude.{
  ℕ, ◌+◌, ◌<◌, ◌≤◌, ◌≡◌, refl, ap, ap₂, ◌∙◌, sym, subst, String, Bool, true, false, [], ◌∷◌, Option,
  none, some, get_or, if◌then◌else◌, str_eq, arith,
}
use iicpc_summer_hackathon.Prelude.Dict.{Dict, lookup, insert, lookup-insert, lookup-insert_self}
use iicpc_summer_hackathon.ApiGateway.Text.{trim_prefix-append, str_eq-nonempty}
use iicpc_summer_hackathon.ApiGateway.Accounts.{
  Claims, Crypto, TeamStore, Credentials, RegisterRun, AuthReply, conflict, unauthorized, granted,
  day, team_key, hash_password, claims_of, issue_token, reply_with, is_incomplete, taken, save_team,
  finish_register, register, finish_login, login, authenticate,
}

module _ (c : Crypto) where
  -- The answer to a login of this team with this password stored.
  abbrev pub login_answer : String → ℕ → String → String → Credentials → AuthReply
  login_answer secret now team_id hashed b =
      if str_eq hashed (hash_password c b.password)
      then reply_with now team_id (issue_token c secret now team_id b.team_name)
      else unauthorized

  finish_login-saved :
      (secret : String) (now : ℕ) (b : Credentials) (team_id hashed : String) (fields : Dict String)
      → lookup "team_id" fields ≡ some team_id
      → lookup "password" fields ≡ some hashed
      → finish_login c secret now b (some fields) ≡ login_answer secret now team_id hashed b
  unfolding lookup
  finish_login-saved secret now b team_id hashed [] p q = cc
  finish_login-saved secret now b team_id hashed (f ∷ fields) p q =
      ap₂
        (λ t h.
          if str_eq (get_or "" h) (hash_password c b.password)
          then reply_with now (get_or "" t) (issue_token c secret now (get_or "" t) b.team_name)
          else unauthorized)
        p q

  -- Any team's login after its fields were written.
  login-save_team :
      (secret : String) (run : RegisterRun) (now : ℕ) (team_id hashed : String) (b : Credentials)
      (s : TeamStore)
      → run.h_set_up ≡ true
      → is_incomplete b ≡ false
      → login c secret true now (some b) (save_team run team_id b.team_name hashed s)
        ≡ login_answer secret now team_id hashed b
  unfolding login
  login-save_team secret run now team_id hashed b s up full =
      let key = team_key b.team_name in
      let old = get_or [] (lookup key s.hashes) in
      let fields = insert "password" hashed (insert "team_id" team_id old) in
      rw (full, up, lookup-insert_self key fields s.hashes)
        (finish_login-saved secret now b team_id hashed fields (simp (lookup-insert))
          (simp (lookup-insert)))

taken-found :
    (up : Bool) (name : String) (s : TeamStore) (fields : Dict String)
    → lookup (team_key name) s.hashes ≡ some fields
    → taken up name s ≡ up
taken-found up name s fields found =
    ap (λ (o : Option (Dict String)). elim o as (λ _. Bool) [ none ↦ false | some fields ↦ up ])
      found

taken-save_team :
    (run again : RegisterRun) (team_id name hashed : String) (s : TeamStore)
    → run.h_set_up ≡ true
    → again.exists_up ≡ true
    → taken again.exists_up name (save_team run team_id name hashed s) ≡ true
taken-save_team run again team_id name hashed s saved up =
    let old = get_or [] (lookup (team_key name) s.hashes) in
    let fields = insert "password" hashed (insert "team_id" team_id old) in
    taken-found again.exists_up name (save_team run team_id name hashed s) fields
      (rw saved (lookup-insert_self (team_key name) fields s.hashes))
    ∙ up

-- A token that was signed is read as its claims from its issue until its end.
pub record IsSigning (c : Crypto) : Type 0 where
  pub reads :
      (secret token : String) (claims : Claims) (t : ℕ)
      → c.sign secret claims ≡ some token
      → claims.iat ≤ t
      → t < claims.exp
      → c.parse secret t token
        ≡ some (record { team_id = claims.sub; team_name = claims.team_name })

module _ (c : Crypto) (laws : IsSigning c) (secret : String) where
  pub authenticate-issue_token :
      (now t : ℕ) (team_id name token : String)
      → issue_token c secret now team_id name ≡ some token
      → now ≤ t
      → t < now + day
      → authenticate c secret t (str_append "Bearer " token)
        ≡ some (record { team_id = team_id; team_name = name })
  unfolding authenticate
  authenticate-issue_token now t team_id name token issued from until =
      rw (str_eq-nonempty "B" "earer " token, trim_prefix-append "Bearer " token)
        (laws.reads secret token (claims_of now team_id name) t issued from until)

register-taken :
    (c : Crypto) (secret : String) (run : RegisterRun) (now : ℕ) (team_id : String)
    (b : Credentials) (s : TeamStore)
    → is_incomplete b ≡ false
    → taken run.exists_up b.team_name s ≡ true
    → register c secret run now team_id (some b) s ≡ (conflict, s)
unfolding register finish_register
register-taken c secret run now team_id b s full found = rw (full, found) refl

module _ (c : Crypto) (secret : String) (run : RegisterRun) (now : ℕ) (team_id : String)
    (b : Credentials) (s : TeamStore) (full : is_incomplete b ≡ false)
    (free : taken run.exists_up b.team_name s ≡ false) where
  pub register-free : register c secret run now team_id (some b) s ≡ (
    reply_with now team_id (issue_token c secret now team_id b.team_name),
    save_team run team_id b.team_name (hash_password c b.password) s,
  )
  unfolding register finish_register
  register-free = rw (full, free) refl

  module _ (laws : IsSigning c) (saved : run.h_set_up ≡ true) where
    -- A team registers with a name that is free and a write to Redis that is kept; while Redis then answers,
    -- a login with any password of the same hash is granted with the team's id, any other one is not, a
    -- second registration is a conflict, and the token of that login tells the team's id and name from its
    -- issue until its end a day later. The login's token is taken to be signed.
    pub register-login :
        (later t : ℕ) (password token other_id : String) (again : RegisterRun)
        → str_eq password "" ≡ false
        → again.exists_up ≡ true
        → issue_token c secret later team_id b.team_name ≡ some token
        → later ≤ t
        → t < later + day
        → let (reply, s') = register c secret run now team_id (some b) s in
          let b' = record b { password = password } in
          (reply ≡ reply_with now team_id (issue_token c secret now team_id b.team_name))
          × (login c secret true later (some b') s' ≡ (
              if str_eq (hash_password c b.password) (hash_password c password)
              then granted token team_id (later + day)
              else unauthorized))
          × (register c secret again later other_id (some b') s' ≡ (conflict, s'))
          × (authenticate c secret t (str_append "Bearer " token)
              ≡ some (record { team_id = team_id; team_name = b.team_name }))
    register-login later t password token other_id again given up issued from until =
        let hashed = hash_password c b.password in
        let s1 = save_team run team_id b.team_name hashed s in
        let b' = record b { password = password } in
        let full' : is_incomplete b' ≡ false = ground (arith, full, given) in
        let found : taken again.exists_up b.team_name s1 ≡ true =
          taken-save_team run again team_id b.team_name hashed s saved up in
        let logged : login c secret true later (some b') s1 ≡ (
            if str_eq hashed (hash_password c password)
            then granted token team_id (later + day)
            else unauthorized) =
          login-save_team c secret run later team_id hashed b' s saved full'
          ∙ ap
              (λ x.
                if str_eq hashed (hash_password c password)
                then reply_with later team_id x
                else unauthorized)
              issued in
        subst
          (λ out.
            (out.0 ≡ reply_with now team_id (issue_token c secret now team_id b.team_name))
            × (login c secret true later (some b') out.1 ≡ (
                if str_eq hashed (hash_password c password)
                then granted token team_id (later + day)
                else unauthorized))
            × (register c secret again later other_id (some b') out.1 ≡ (conflict, out.1))
            × (authenticate c secret t (str_append "Bearer " token)
                ≡ some (record { team_id = team_id; team_name = b.team_name })))
          (sym register-free)
          (
            refl,
            logged,
            register-taken c secret again later other_id b' s1 full' found,
            authenticate-issue_token c laws secret later t team_id b.team_name token issued from
                until,
          )

-- Two registrations of one name that both ask whether it exists before either writes.
module _ (c : Crypto) (secret : String) (run run' : RegisterRun) (now now' : ℕ) (id id' : String)
    (b : Credentials) (password : String) (s : TeamStore) where
  -- Of two registrations of one free name, the second one's write kept, that both ask whether it exists
  -- before either writes, neither is a conflict: both are answered with the token that is issued. The
  -- second one's id and password stay, so that the first one's login fails unless the two passwords
  -- have the same hash, and then it is answered with the other's id.
  pub register_race :
      (free : taken run.exists_up b.team_name s ≡ false)
      → taken run'.exists_up b.team_name s ≡ false
      → run'.h_set_up ≡ true
      → is_incomplete b ≡ false
      → (later : ℕ)
      → let b' = record b { password = password } in
        let (first, s1) =
          finish_register c secret run now id b (taken run.exists_up b.team_name s) s in
        let (second, s2) =
          finish_register c secret run' now' id' b' (taken run'.exists_up b.team_name s) s1 in
        (first ≡ reply_with now id (issue_token c secret now id b.team_name))
        × (second ≡ reply_with now' id' (issue_token c secret now' id' b.team_name))
        × (login c secret true later (some b) s2 ≡ (
            if str_eq (hash_password c password) (hash_password c b.password)
            then reply_with later id' (issue_token c secret later id' b.team_name)
            else unauthorized))
  unfolding finish_register
  register_race free free' saved full later =
      let b' = record b { password = password } in
      let s1 = (finish_register c secret run now id b (taken run.exists_up b.team_name s) s).1 in
      let second = ap (λ x. finish_register c secret run' now' id' b' x s1) free' in
      (
        ap (λ x. (finish_register c secret run now id b x s).0) free,
        ap (λ o. o.0) second,
        ap (λ o. login c secret true later (some b) o.1) second
            ∙ login-save_team c secret run' later id' (hash_password c password) b s1 saved full,
      )
