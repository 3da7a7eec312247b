-- ===== src/Scoring/Engine.antt =====
-- The scoring engine of services/scoring-service/main.go and the handlers that read what it writes.
-- Redis, TimescaleDB, encoding/json and fmt.Sscanf are parameters.
use Prim.Native.String.{◌++◌ as str_append, slice, len}
use iicpc_summer_hackathon.Prelude.{
  ℕ, String, Bool, true, false, List, [], ◌∷◌, ◌++◌, Option, none, some, get_or, if◌then◌else◌,
  str_eq, length, ◌==◌,
}
use iicpc_summer_hackathon.Prelude.Int.{ℤ, pos, eqb_ℤ}
use iicpc_summer_hackathon.Prelude.Float.{Float64}
use iicpc_summer_hackathon.Prelude.Dict.{Dict, lookup, insert}
use iicpc_summer_hackathon.Prelude.Sort.{sort_slice}
use iicpc_summer_hackathon.Scoring.Score.{Exponential, compute_score}
pub mod Board
pub mod Metrics

pub record LeaderboardEntry (F : Type 0) : Type 0 where
  pub session_id : String
  pub submission_id : String
  pub team_name : String
  pub language : String
  pub composite_score : F
  pub throughput_score : F
  pub latency_score : F
  pub correctness_score : F
  pub stability_score : F
  pub p50_ns : ℤ
  pub p90_ns : ℤ
  pub p99_ns : ℤ
  pub tps : F
  pub fill_acc_pct : F
  pub violations : ℤ
  pub status : String
  pub updated_at : ℤ

-- The row of session_metrics, whose time the database sets.
pub record MetricsRow (F : Type 0) : Type 0 where
  pub session_id : String
  pub p50_ns : ℤ
  pub p90_ns : ℤ
  pub p99_ns : ℤ
  pub tps : F
  pub fill_acc_pct : F
  pub violations : ℤ
  pub composite_score : F

-- The commands of Redis and of the database that the service uses, on a store S. A result none is an
-- error; an HGet gives the empty text for an error or a missing field.
pub record ScoreStore (S F : Type 0) : Type 0 where
  pub h_get_all : String → S → Option (Dict String)
  pub h_get : String → String → S → String
  pub get : String → S → Option String
  pub set : String → String → ℕ → S → S
  pub z_add : String → F → String → S → S
  pub z_rev_range : String → ℕ → ℕ → S → Option (List String)
  pub publish : String → String → S → S
  pub insert_row : MetricsRow F → S → S

-- fmt.Sscanf with %f and %d, where none leaves the variable as it is, and encoding/json.
pub record Codec (F : Type 0) : Type 0 where
  pub scan_float : String → Option F
  pub scan_int : String → Option ℤ
  pub marshal : LeaderboardEntry F → String
  pub unmarshal : String → Option (LeaderboardEntry F)
  pub marshal_board : List (LeaderboardEntry F) → ℕ → ℤ → String

pub record ScoringEngine (S : Type 0) : Type 0 where
  pub last_update : Dict ℤ
  pub store : S
  pub pool : Bool

-- One answer to SCAN: an error, or keys with whether the cursor is back at 0.
pub data ScanReply : Type 0 where
  scan_error : ScanReply
  batch : List String → Bool → ScanReply

-- The keys that the answers bring, where they lead back to the cursor 0.
unfoldable pub scan_keys : List ScanReply → List String → Option (List String)
scan_keys [] keys = none
scan_keys (scan_error ∷ rest) keys = none
scan_keys (batch ks true ∷ rest) keys = some (keys ++ ks)
scan_keys (batch ks false ∷ rest) keys = scan_keys rest (keys ++ ks)

-- key[len("metrics:"):] for a key that begins so.
abbrev pub session_of : String → String
session_of key = slice key (len "metrics:") (len key)

module _ {S F : Type 0} ⦃fl : Float64 F⦄ (r : ScoreStore S F) (c : Codec F) where
  abbrev pub int_field : String → Dict String → ℤ
  int_field k vals = get_or (pos 0) (c.scan_int (get_or "" (lookup k vals)))

  abbrev pub float_field : String → Dict String → F
  float_field k vals = get_or (fl.decimal 0 0) (c.scan_float (get_or "" (lookup k vals)))

  abbrev pub row_of : LeaderboardEntry F → MetricsRow F
  row_of e = record {
    session_id = e.session_id;
    p50_ns = e.p50_ns;
    p90_ns = e.p90_ns;
    p99_ns = e.p99_ns;
    tps = e.tps;
    fill_acc_pct = e.fill_acc_pct;
    violations = e.violations;
    composite_score = e.composite_score;
  }

  -- The writes for an entry: its own key, the sorted set, and the database where there is one.
  unfoldable pub store_entry : Bool → LeaderboardEntry F → S → S
  store_entry pool e s =
      let s' =
        r.z_add "leaderboard" e.composite_score e.session_id
          (r.set (str_append "score:" e.session_id) (c.marshal e) 7200 s) in
      if pool then r.insert_row (row_of e) s' else s'

  abbrev pub score_at : String → S → Option (LeaderboardEntry F)
  score_at sid s = elim (r.get (str_append "score:" sid) s) [
    | none ↦ none
    | some raw ↦ c.unmarshal raw
  ]

  -- The entries of these sessions; one without a score, or with one that does not decode, is left out.
  unfoldable pub collect : List String → S → List (LeaderboardEntry F)
  collect [] s = []
  collect (sid ∷ sids) s =
      let rest = collect sids s in elim (score_at sid s) [ none ↦ rest | some e ↦ e ∷ rest ]

  abbrev pub above : LeaderboardEntry F → LeaderboardEntry F → Bool
  above a b = fl.lt b.composite_score a.composite_score

  -- The writes of publishLeaderboard for entries.
  abbrev pub publish_entries : ℤ → List (LeaderboardEntry F) → S → S
  publish_entries now entries s =
      let lb = c.marshal_board entries (length entries) now in
      r.publish "leaderboard:updates" lb (r.set "leaderboard:snapshot" lb 30 s)

  unfoldable pub publish_leaderboard : ℤ → S → S
  unfolding collect
  publish_leaderboard now s = elim (r.z_rev_range "leaderboard" 0 49 s) [
    | none ↦ s
    | some sids ↦ publish_entries now (sort_slice above (collect sids s)) s
  ]

  -- GET /v1/leaderboard: the snapshot, made anew where it has expired; none stands for an empty board.
  unfoldable pub get_leaderboard : ℤ → S → Option String × S
  unfolding publish_leaderboard
  get_leaderboard now s = elim (r.get "leaderboard:snapshot" s) [
    | some raw ↦ (some raw, s)
    | none ↦ (let s' = publish_leaderboard now s in (r.get "leaderboard:snapshot" s', s'))
  ]

  -- GET /v1/scores/:session_id and /v1/metrics/:session_id; none is 404.
  unfoldable pub get_score : String → S → Option String
  get_score session_id s = r.get (str_append "score:" session_id) s

  unfoldable pub get_metrics : String → S → Option (Dict String)
  get_metrics session_id s =
      elim (r.h_get_all (str_append "metrics:" session_id) s) as (λ _. Option (Dict String)) [
        | none ↦ none
        | some [] ↦ none
        | some (v ∷ vals) ↦ some (v ∷ vals)
      ]

module _ {S F : Type 0} ⦃fl : Float64 F⦄ ⦃ex : Exponential F⦄ (r : ScoreStore S F)
    (c : Codec F) where
  -- The entry that the fields of a session's metrics give.
  unfoldable pub entry_of : ℤ → String → Dict String → S → LeaderboardEntry F
  entry_of now session_id vals s =
      let tps = float_field r c "tps" vals in
      let acc = float_field r c "fill_acc_pct" vals in
      let p99 = int_field r c "p99_ns" vals in
      let scores = compute_score tps p99 acc true in
      let meta = str_append "session_meta:" session_id in
      let team = r.h_get meta "team_name" s in
      record {
        session_id = session_id;
        submission_id = r.h_get meta "submission_id" s;
        team_name = if str_eq team "" then "unknown" else team;
        language = r.h_get meta "language" s;
        composite_score = scores.composite;
        throughput_score = scores.t_score;
        latency_score = scores.l_score;
        correctness_score = scores.c_score;
        stability_score = scores.s_score;
        p50_ns = int_field r c "p50_ns" vals;
        p90_ns = int_field r c "p90_ns" vals;
        p99_ns = p99;
        tps = tps;
        fill_acc_pct = acc;
        violations = int_field r c "violations" vals;
        status = "running";
        updated_at = now;
      }

  -- scoreSession on fields that have been read: nothing where they are as old as the last ones.
  unfoldable pub score_fields : ℤ → String → Dict String → ScoringEngine S → ScoringEngine S
  unfolding entry_of store_entry
  score_fields now session_id vals st =
      let updated = int_field r c "updated_at" vals in
      if eqb_ℤ (get_or (pos 0) (lookup session_id st.last_update)) updated then st else record st {
        last_update = insert session_id updated st.last_update;
        store = store_entry r c st.pool (entry_of now session_id vals st.store) st.store;
      }

  unfoldable pub score_session : ℤ → String → ScoringEngine S → ScoringEngine S
  unfolding score_fields
  score_session now session_id st =
      elim (r.h_get_all (str_append "metrics:" session_id) st.store) as (λ _. ScoringEngine S) [
        | none ↦ st
        | some [] ↦ st
        | some (v ∷ vals) ↦ score_fields now session_id (v ∷ vals) st
      ]

  unfoldable pub score_keys : ℤ → List String → ScoringEngine S → ScoringEngine S
  unfolding score_session
  score_keys now [] st = st
  score_keys now (key ∷ keys) st = score_keys now keys (score_session now (session_of key) st)

  -- A round: every session that the scan finds, then the board; an error of the scan ends it.
  unfoldable pub run_once : ℤ → List ScanReply → ScoringEngine S → ScoringEngine S
  unfolding scan_keys score_keys publish_leaderboard
  run_once now replies st = elim (scan_keys replies []) [
    | none ↦ st
    | some keys ↦
        (let st' = score_keys now keys st in
          record st' { store = publish_leaderboard r c now st'.store })
  ]
