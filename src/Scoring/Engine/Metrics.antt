-- ===== src/Scoring/Engine/Metrics.antt =====
-- What the scoring service makes of the hash that the telemetry service's publisher writes.
use Prim.Native.Char.{code}
use Prim.Native.String.append
use Prim.Native.String.{◌++◌ as str_append, [] as nil, ◌∷◌ as cons}
use iicpc_summer_hackathon.Prelude.{
  ℕ, String, ◌≡◌, true, false, List, [], ◌∷◌, some, if◌then◌else◌, str_eq,
}
use iicpc_summer_hackathon.Prelude.Int.{ℤ, IsInt64}
use iicpc_summer_hackathon.Prelude.Float.{Float64}
use iicpc_summer_hackathon.Prelude.Dict.{Dict, lookup, insert}
use iicpc_summer_hackathon.Telemetry.Metrics.{
  MetricValue, int, text as text_value, Snapshot, RedisCommand, h_set, expire, publish, commands,
}
use iicpc_summer_hackathon.Scoring.Score.{Exponential, compute_score}
use iicpc_summer_hackathon.Scoring.Engine.{
  LeaderboardEntry, MetricsRow, ScoreStore, Codec, ScoringEngine, store_entry,
}

-- Redis keeps every value of a hash as text; show_int is how the client prints an integer.
module _ (show_int : ℤ → String) where
  abbrev shown : MetricValue → String
  shown (int n) = show_int n
  shown (text_value t) = t

  abbrev write_fields : List (String × MetricValue) → Dict String → Dict String
  write_fields [] hash = hash
  write_fields ((k, v) ∷ fields) hash = write_fields fields (insert k (shown v) hash)

module _ {F : Type 0} (show_int : ℤ → String) where
  -- The hash at a key after commands of the publisher.
  abbrev pub hash_after : String → List (RedisCommand F) → Dict String → Dict String
  hash_after key [] hash = hash
  hash_after key (h_set k fields ∷ cmds) hash =
      hash_after key cmds (if str_eq k key then write_fields show_int fields hash else hash)
  hash_after key (expire k secs ∷ cmds) hash = hash_after key cmds hash
  hash_after key (publish channel s ∷ cmds) hash = hash_after key cmds hash

module _ {F : Type 0} ⦃fl : Float64 F⦄ (show_int : ℤ → String) where
  abbrev published : ℤ → Snapshot F → Dict String → Dict String
  published stamp snap old =
      hash_after show_int (str_append "metrics:" snap.session_id) (commands stamp snap) old

  -- A hash in which every field of the snapshot, and its time, can be read.
  abbrev pub Carries : ℤ → Snapshot F → Dict String → Type 0
  Carries stamp snap hash =
      (lookup "p50_ns" hash ≡ some (show_int snap.p50_ns))
      × (lookup "p90_ns" hash ≡ some (show_int snap.p90_ns))
      × (lookup "p99_ns" hash ≡ some (show_int snap.p99_ns))
      × (lookup "tps" hash ≡ some (fl.show1 snap.tps))
      × (lookup "violations" hash ≡ some (show_int snap.violations))
      × (lookup "fill_acc_pct" hash ≡ some (fl.show4 snap.fill_acc_pct))
      × (lookup "updated_at" hash ≡ some (show_int stamp))

module _ {F : Type 0} ⦃fl : Float64 F⦄ ⦃ex : Exponential F⦄ where
  -- The entry says what the snapshot says, and its scores are those of the snapshot's numbers.
  abbrev pub Reports : LeaderboardEntry F → Snapshot F → F → F → Type 0
  Reports e snap tps acc =
      let scores = compute_score tps snap.p99_ns acc true in
      (e.session_id ≡ snap.session_id)
      × (e.p50_ns ≡ snap.p50_ns)
      × (e.p90_ns ≡ snap.p90_ns)
      × (e.p99_ns ≡ snap.p99_ns)
      × (e.violations ≡ snap.violations)
      × (e.tps ≡ tps)
      × (e.fill_acc_pct ≡ acc)
      × (e.composite_score ≡ scores.composite)

-- The whole numbers of a snapshot are int64.
pub record Fits {F : Type 0} (snap : Snapshot F) : Type 0 where
  pub p50 : IsInt64 snap.p50_ns
  pub p90 : IsInt64 snap.p90_ns
  pub p99 : IsInt64 snap.p99_ns
  pub violations : IsInt64 snap.violations

-- The code of a text's first character, or 0.
abbrev first_code : String → ℕ
first_code nil = 0
first_code (cons c s) = code c

module _ {S F : Type 0} (r : ScoreStore S F) where
  -- SET leaves the hashes at other keys as they are, ZADD and INSERT all of them.
  pub record KeepsHashes : Type 0 where
    pub set_keeps :
        (k k' v : String) (ttl : ℕ) (s : S)
        → str_eq k k' ≡ false
        → r.h_get_all k (r.set k' v ttl s) ≡ r.h_get_all k s
    pub z_add_keeps :
        (k k' m : String) (x : F) (s : S) → r.h_get_all k (r.z_add k' x m s) ≡ r.h_get_all k s
    pub insert_row_keeps :
        (k : String) (row : MetricsRow F) (s : S)
        → r.h_get_all k (r.insert_row row s) ≡ r.h_get_all k s

module _ {S F : Type 0} ⦃fl : Float64 F⦄ ⦃ex : Exponential F⦄ (r : ScoreStore S F)
    (c : Codec F) where
  -- The engine after an entry for a session at a time.
  abbrev scored : String → ℤ → LeaderboardEntry F → ScoringEngine S → ScoringEngine S
  scored sid stamp e st = record st {
    last_update = insert sid stamp st.last_update;
    store = store_entry r c st.pool e st.store;
  }
