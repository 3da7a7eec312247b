-- ===== src/Telemetry/Metrics.antt =====
-- The latency reservoir, the percentiles and the publisher of
-- services/telemetry-service/main.go. `none` is a panic.
pub mod Reservoir
pub mod Tally
pub mod Counts
pub mod Percentiles
mod Tests
use Prim.Native.String.{◌++◌ as str_append}
use iicpc_summer_hackathon.Prelude.{
  ℕ, ◌-◌, String, Bool, List, [], ◌∷◌, ◌++◌, Option, none, some, if◌then◌else◌, ltb, ◌==◌, length,
  get_elem?, set, ◌>>=◌,
}
use iicpc_summer_hackathon.Prelude.Int.{ℤ, pos, negsuc, add64, sub64, ltb_ℤ}
use iicpc_summer_hackathon.Prelude.Dict.{Dict, lookup, insert}
use iicpc_summer_hackathon.Prelude.Float.{Float64}
use iicpc_summer_hackathon.Prelude.Sort.{sort_slice}

pub record SessionMetrics : Type 0 where
  pub latencies : List ℤ
  pub total_orders : ℤ
  pub violations : ℤ
  pub last_flush : ℤ

abbrev pub reservoir_size : ℕ
reservoir_size = 10000

-- rand.Int63n, with the generator's next answer as a function of the bound; it panics on a bound
-- that is not positive.
abbrev pub int63n : (ℤ → ℤ) → ℤ → Option ℤ
int63n draw n = if ltb_ℤ (pos 0) n then some (draw n) else none

-- m.latencies[idx] = latency behind the test idx < 10000.
abbrev pub replace_at : List ℤ → ℤ → ℤ → Option (List ℤ)
replace_at latencies (pos i) latency =
    if ltb i reservoir_size
    then (if ltb i (length latencies) then some (set latencies i latency) else none)
    else some latencies
replace_at latencies (negsuc i) latency = none

pub count_order : SessionMetrics → Bool → SessionMetrics
count_order m violation = record m {
  total_orders = add64 m.total_orders (pos 1);
  violations = if violation then add64 m.violations (pos 1) else m.violations;
}

pub keep_latency : (ℤ → ℤ) → SessionMetrics → ℤ → Option SessionMetrics
keep_latency draw m latency =
    if ltb (length m.latencies) reservoir_size
    then some (record m { latencies = m.latencies ++ latency ∷ [] })
    else (do
      idx ← int63n draw m.total_orders
      kept ← replace_at m.latencies idx latency
      some (record m { latencies = kept }))

unfoldable pub record_order : (ℤ → ℤ) → SessionMetrics → ℤ → Bool → Option SessionMetrics
record_order draw m latency_ns violation =
    let m' = count_order m violation in
    if ltb_ℤ (pos 0) latency_ns then keep_latency draw m' latency_ns else some m'

-- sort.Slice with `<` on int64.
abbrev pub sorted : List ℤ → List ℤ
sorted = sort_slice ltb_ℤ

-- sorted[idx], which panics out of range.
abbrev pub index_ℤ : List ℤ → ℤ → Option ℤ
index_ℤ xs (pos i) = get_elem? xs i
index_ℤ xs (negsuc i) = none

-- A command to Redis.
pub data MetricValue : Type 0 where
  int : ℤ → MetricValue
  text : String → MetricValue

pub record Snapshot (F : Type 0) : Type 0 where
  pub session_id : String
  pub p50_ns : ℤ
  pub p90_ns : ℤ
  pub p99_ns : ℤ
  pub tps : F
  pub total_orders : ℤ
  pub violations : ℤ
  pub fill_acc_pct : F

pub data RedisCommand (F : Type 0) : Type 0 where
  h_set : String → List (String × MetricValue) → RedisCommand F
  expire : String → ℕ → RedisCommand F
  publish : String → Snapshot F → RedisCommand F

module _ {F : Type 0} ⦃fl : Float64 F⦄ where
  pub percentile : SessionMetrics → F → Option ℤ
  percentile m p =
      if length m.latencies == 0
      then some (pos 0)
      else index_ℤ (sorted m.latencies)
          (fl.trunc (fl.mul (fl.of_int (pos (length m.latencies - 1))) p))

  pub tps : SessionMetrics → F → F
  tps m window_secs = fl.div (fl.of_int m.total_orders) window_secs

  abbrev pub fill_acc : SessionMetrics → F
  fill_acc m =
      if ltb_ℤ (pos 0) m.total_orders
      then fl.mul
          (fl.div (fl.of_int (sub64 m.total_orders m.violations)) (fl.of_int m.total_orders))
          (fl.decimal 100 0)
      else fl.decimal 0 0

  -- The body of the publisher's loop for one session.
  pub snapshot : F → String → SessionMetrics → Option (Snapshot F)
  snapshot elapsed sid m = do
    p50 ← percentile m (fl.decimal 50 2)
    p90 ← percentile m (fl.decimal 90 2)
    p99 ← percentile m (fl.decimal 99 2)
    some (record {
      session_id = sid;
      p50_ns = p50;
      p90_ns = p90;
      p99_ns = p99;
      tps = tps m elapsed;
      total_orders = m.total_orders;
      violations = m.violations;
      fill_acc_pct = fill_acc m;
    })

  abbrev pub commands : ℤ → Snapshot F → List (RedisCommand F)
  commands now s =
      let key = str_append "metrics:" s.session_id in
      h_set key (
        ("p50_ns", int s.p50_ns)
        ∷ ("p90_ns", int s.p90_ns)
        ∷ ("p99_ns", int s.p99_ns)
        ∷ ("tps", text (fl.show1 s.tps))
        ∷ ("total_orders", int s.total_orders)
        ∷ ("violations", int s.violations)
        ∷ ("fill_acc_pct", text (fl.show4 s.fill_acc_pct))
        ∷ ("updated_at", int now)
        ∷ [])
      ∷ expire key 7200
      ∷ publish "telemetry:updates" s
      ∷ []

  -- One tick of the publisher: the commands for every session.
  pub publish_tick : F → ℤ → Dict SessionMetrics → Option (List (RedisCommand F))
  unfolding snapshot
  publish_tick elapsed now [] = some []
  publish_tick elapsed now ((sid, m) ∷ sessions) = do
    s ← snapshot elapsed sid m
    rest ← publish_tick elapsed now sessions
    some (commands now s ++ rest)

abbrev pub new_metrics : ℤ → SessionMetrics
new_metrics now = record {
  latencies = [];
  total_orders = pos 0;
  violations = pos 0;
  last_flush = now;
}

abbrev pub session_metrics : ℤ → Dict SessionMetrics → String → SessionMetrics
session_metrics now sessions session_id = elim (lookup session_id sessions) [
  | some m ↦ m
  | none ↦ new_metrics now
]

-- The publisher's entry point: the session's metrics, made on first use.
unfoldable pub record_session :
    (ℤ → ℤ) → ℤ → Dict SessionMetrics → String → ℤ → Bool → Option (Dict SessionMetrics)
record_session draw now sessions session_id latency_ns violation = do
  m' ← record_order draw (session_metrics now sessions session_id) latency_ns violation
  some (insert session_id m' sessions)
