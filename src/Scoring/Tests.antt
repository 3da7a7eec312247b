-- ===== src/Scoring/Tests.antt =====
-- A Redis kept in memory, and the scores on it.
mod Numbers
use iicpc_summer_hackathon.Prelude.{
  ℕ, ◌≤◌, ltb, zero, suc, some-injective, subst, String, ◌≡◌, refl, true, false, List, [], ◌∷◌,
  Option, none, some, arith, length, if◌then◌else◌, str_eq, ◌==◌,
}
use iicpc_summer_hackathon.Prelude.Int.{ℤ, pos}
use iicpc_summer_hackathon.Prelude.Dict.{Dict, lookup, insert}
use iicpc_summer_hackathon.Prelude.Float.Fixed.{fixed_point, fixed_point-IsOrdered}
use iicpc_summer_hackathon.Prelude.Float.Arithmetic.{fixed_point-IsMonotone}
use iicpc_summer_hackathon.Scoring.Score.{Exponential, Scores, compute_score}
use iicpc_summer_hackathon.Telemetry.Metrics.{Snapshot, commands}
use iicpc_summer_hackathon.Scoring.Engine.{
  LeaderboardEntry, MetricsRow, ScoreStore, Codec, ScoringEngine, publish_entries,
  publish_leaderboard,
}
use iicpc_summer_hackathon.Scoring.Engine.Board.{RangesWithin, IsBoardOf, publish_leaderboard_lem}
use iicpc_summer_hackathon.Scoring.Engine.Metrics.{hash_after}
use iicpc_summer_hackathon.Scoring.Tests.Numbers.{show_int, scan_int}
use iicpc_summer_hackathon.Scoring.Score.Bounds.{
  IsExponential, IsWeighted, InPercent, compute_score_mono, compute_score_bounds,
}

-- A curve that never falls, and is 1 at 0.
abbrev flat : Exponential ℕ
flat = record { exp = λ x. 10000 }

flat-IsExponential : IsExponential fixed_point flat
flat-IsExponential = record { exp_mono = λ a b h. refl; exp_not_neg = λ a. refl; exp_zero = refl }

fixed_point-IsWeighted : IsWeighted fixed_point
fixed_point-IsWeighted = record {
  thirty = refl;
  ten = refl;
  one = refl;
  weights_not_neg = (refl, refl, refl);
}

abbrev points : ℕ → ℤ → ℕ → Scores ℕ
points tps p99_ns acc = compute_score ⦃fl = fixed_point⦄ ⦃ex = flat⦄ tps p99_ns acc true

abbrev Percent : ℕ → Type 0
Percent = InPercent ⦃fl = fixed_point⦄

-- Five hundred thousand orders in a second and 99 per cent of them filled.
compute_score_bounds_example :
    let s = points 5000000000 (pos 1000) 990000 in
    Percent s.composite
    × Percent s.t_score
    × Percent s.l_score
    × Percent s.c_score
    × Percent s.s_score
compute_score_bounds_example =
    compute_score_bounds ⦃fl = fixed_point⦄ ⦃ex = flat⦄ fixed_point-IsOrdered fixed_point-IsMonotone
      fixed_point-IsWeighted flat-IsExponential 5000000000 (pos 1000) 990000 true refl (omega arith)
      (refl, refl)

compute_score_mono_example :
    ltb
      (points 6000000000 (pos 900) 990000).composite
      (points 5000000000 (pos 1000) 980000).composite
    ≡ false
compute_score_mono_example =
    compute_score_mono ⦃fl = fixed_point⦄ ⦃ex = flat⦄ fixed_point-IsOrdered fixed_point-IsMonotone
      fixed_point-IsWeighted flat-IsExponential 5000000000 6000000000 (pos 1000) (pos 900) 980000
      990000 true refl (omega arith) refl

-- Redis in memory: hashes, texts, the sorted set's answer, and the rows of the database.
record Memory : Type 0 where
  hashes : Dict (Dict String)
  texts : Dict String
  ranked : List String
  rows : List (MetricsRow ℕ)

abbrev first : ℕ → List String → List String
first zero xs = []
first (suc n) [] = []
first (suc n) (x ∷ xs) = x ∷ first n xs

length-first : (n : ℕ) (xs : List String) → length (first n xs) ≤ n
length-first zero xs = omega arith
length-first (suc n) [] = omega arith
length-first (suc n) (x ∷ xs) = omega (arith, length-first n xs)

abbrev in_memory : ScoreStore Memory ℕ
in_memory = record {
  h_get_all = λ k s. lookup k s.hashes;
  h_get = λ k f s. "";
  get = λ k s. lookup k s.texts;
  set = λ k v ttl s. record s { texts = insert k v s.texts };
  z_add = λ k x m s. record s { ranked = m ∷ s.ranked };
  z_rev_range = λ k n m s. some (first (suc m) s.ranked);
  publish = λ channel v s. s;
  insert_row = λ row s. record s { rows = row ∷ s.rows };
}

abbrev one_entry : LeaderboardEntry ℕ
one_entry = record {
  session_id = "b";
  submission_id = "";
  team_name = "unknown";
  language = "";
  composite_score = 500000;
  throughput_score = 0;
  latency_score = 0;
  correctness_score = 0;
  stability_score = 0;
  p50_ns = pos 1;
  p90_ns = pos 2;
  p99_ns = pos 3;
  tps = 0;
  fill_acc_pct = 0;
  violations = pos 0;
  status = "running";
  updated_at = pos 0;
}

abbrev decode : String → Option (LeaderboardEntry ℕ)
decode raw =
    if str_eq raw "low"
    then some (record one_entry { session_id = "a"; composite_score = 400000 })
    else (if str_eq raw "high" then some one_entry else none)

abbrev codec : Codec ℕ
codec = record {
  scan_float = λ t. some 990000;
  scan_int = scan_int;
  marshal = λ e. "high";
  unmarshal = decode;
  marshal_board = λ es n now. "board";
}

in_memory-RangesWithin : RangesWithin ⦃fl = fixed_point⦄ in_memory codec
in_memory-RangesWithin key n s sids e =
    subst (λ xs. length xs ≤ suc n) (some-injective _ _ e) (length-first (suc n) s.ranked)

-- Three sessions, of which one has no score.
abbrev ranked : Memory
ranked = record {
  hashes = [];
  texts = ("score:a", "low") ∷ ("score:b", "high") ∷ [];
  ranked = "a" ∷ "gone" ∷ "b" ∷ [];
  rows = [];
}

publish_leaderboard_lem_example :
    (entries : List (LeaderboardEntry ℕ)) × IsBoardOf ⦃fl = fixed_point⦄ in_memory codec
      ("a" ∷ "gone" ∷ "b" ∷ [])
      ranked
      entries
    × (publish_leaderboard ⦃fl = fixed_point⦄ in_memory codec (pos 7) ranked
        ≡ publish_entries ⦃fl = fixed_point⦄ in_memory codec (pos 7) entries ranked)
publish_leaderboard_lem_example =
    publish_leaderboard_lem ⦃fl = fixed_point⦄ in_memory codec fixed_point-IsOrdered
      in_memory-RangesWithin (pos 7) ranked ("a" ∷ "gone" ∷ "b" ∷ []) refl

abbrev snap : Snapshot ℕ
snap = record {
  session_id = "a";
  p50_ns = pos 3;
  p90_ns = pos 4;
  p99_ns = pos 5;
  tps = 120000;
  total_orders = pos 8;
  violations = pos 1;
  fill_acc_pct = 990000;
}

abbrev engine : ScoringEngine Memory
engine = record {
  last_update = ("a", pos 1) ∷ [];
  store = record ranked {
    hashes =
        (
          "metrics:a",
          hash_after show_int "metrics:a" (commands ⦃fl = fixed_point⦄ (pos 2) snap)
              (("tps", "1") ∷ []),
        )
        ∷ [];
  };
  pool = true;
}
