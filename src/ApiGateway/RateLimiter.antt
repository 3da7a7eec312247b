-- ===== src/ApiGateway/RateLimiter.antt =====
-- RateLimiter.Allow of services/api-gateway/main.go. Redis is a parameter: its sorted sets, by key.
use Prim.Native.String.{◌++◌ as str_append}
use iicpc_summer_hackathon.Prelude.{
  ℕ, ◌+◌, ◌<◌, String, ◌≡◌, Bool, true, false, str_eq, List, [], ◌∷◌, ◌++◌, if◌then◌else◌, ltb,
  length,
}
use iicpc_summer_hackathon.Prelude.Int.{ℤ, pos, sub_ℕ, ltb_ℤ, ◌≤ℤ◌}
pub mod Window
pub mod Grants
pub mod Overlap

-- The commands of Redis that Allow sends, on a store S.
pub record SortedSets (S : Type 0) : Type 0 where
  pub z_rem_range_by_score : String → ℤ → S → S
  pub z_card : String → S → ℕ
  pub z_add : String → ℕ → String → S → S
  pub expire : String → ℕ → S → S

-- The scores over a bound.
abbrev pub over : ℤ → List ℕ → List ℕ
over bound [] = []
over bound (t ∷ ts) = let rest = over bound ts in if ltb_ℤ bound (pos t) then t ∷ rest else rest

-- What Redis documents of them: `count` is how many members of a key's set have a score over a bound
-- (ZCOUNT), and `has` is whether the set has a member (ZSCORE). ZADD adds a member that is new; one
-- that is known only gets another score. A time to live above 0 takes nothing away at once.
pub record IsStore {S : Type 0} (r : SortedSets S) (count : String → ℤ → S → ℕ)
    (has : String → String → S → Bool) : Type 0 where
  pub card :
      (k : String) (bound : ℤ) (s : S)
      → r.z_card k (r.z_rem_range_by_score k bound s) ≡ count k bound s
  pub removed :
      (k : String) (bound b : ℤ) (s : S)
      → bound ≤ℤ b
      → count k b (r.z_rem_range_by_score k bound s) ≡ count k b s
  pub added :
      (k : String) (t : ℕ) (member : String) (b : ℤ) (s : S)
      → has k member s ≡ false
      → count k b (r.z_add k t member s) ≡ count k b s + length (over b (t ∷ []))
  pub kept :
      (k : String) (ttl : ℕ) (b : ℤ) (s : S) → 0 < ttl → count k b (r.expire k ttl s) ≡ count k b s
  pub removed_new :
      (k member : String) (bound : ℤ) (s : S)
      → has k member s ≡ false
      → has k member (r.z_rem_range_by_score k bound s) ≡ false
  pub added_new :
      (k member other : String) (t : ℕ) (s : S)
      → str_eq other member ≡ false
      → has k member s ≡ false
      → has k member (r.z_add k t other s) ≡ false
  pub kept_new :
      (k member : String) (ttl : ℕ) (s : S)
      → 0 < ttl
      → has k member s ≡ false
      → has k member (r.expire k ttl s) ≡ false

-- The commands of a pipeline. Redis executes them in their order, and may execute others between them.
pub data Command : Type 0 where
  drops : ℤ → Command
  counts : Command
  adds : ℕ → String → Command
  expires : ℕ → Command

abbrev pub pipeline : ℕ → ℕ → String → List Command
pipeline now window member =
    drops (sub_ℕ now window) ∷ counts ∷ adds now member ∷ expires window ∷ []

-- How the pipeline ends: with an error, which leaves some store, or well.
pub data Outcome (S : Type 0) : Type 0 where
  failed : S → Outcome S
  executed : Outcome S

abbrev pub redis_key : String → String
redis_key key = str_append "rl:" key

-- Times and the window are in milliseconds; `member` is the answer of the uuid library. A pipeline is
-- no transaction: this is Allow where Redis executes the four commands of a request without those of
-- another one of the same key between them.
module _ {S : Type 0} (r : SortedSets S) where
  unfoldable pub allow : String → ℕ → ℕ → ℕ → String → Outcome S → S → Bool × S
  allow key limit window now member (failed s') s = (true, s')
  allow key limit window now member executed s =
      let k = redis_key key in
      let s1 = r.z_rem_range_by_score k (sub_ℕ now window) s in
      (ltb (r.z_card k s1) limit, r.expire k window (r.z_add k now member s1))

  -- The answers to requests of one key at these times, with the members they add.
  pub allow_all : String → ℕ → ℕ → List (ℕ × String) → S → List Bool
  unfolding allow
  allow_all key limit window [] s = []
  allow_all key limit window ((now, member) ∷ rest) s =
      let (ok, s') = allow key limit window now member executed s in
      ok ∷ allow_all key limit window rest s'
