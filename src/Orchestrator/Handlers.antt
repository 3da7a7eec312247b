-- ===== src/Orchestrator/Handlers.antt =====
-- The HTTP handlers of services/bot-orchestrator/main.go that start and show sessions, and
-- metricsAggLoop. encoding/json and fmt.Sscanf are parameters.
use Prim.Native.String.{◌++◌ as str_append}
use iicpc_summer_hackathon.Prelude.{
  ℕ, String, Bool, true, false, List, [], ◌∷◌, Option, none, some, get_or, map, if◌then◌else◌,
  str_eq,
}
use iicpc_summer_hackathon.Prelude.Int.{ℤ, pos, eqb_ℤ}
use iicpc_summer_hackathon.Prelude.Dict.{Dict, lookup, insert}
use iicpc_summer_hackathon.Prelude.Float.{Float64}
use iicpc_summer_hackathon.Orchestrator.State.{
  SessionStatus, running, BenchmarkSession, set_session, Orchestrator, send_redis,
}
use iicpc_summer_hackathon.Orchestrator.Sessions.{StartRequest, Writes, start_session}

pub data StartReply (F : Type 0) : Type 0 where
  bad_request : StartReply F
  server_error : StartReply F
  accepted : BenchmarkSession F → StartReply F

abbrev or_int : ℤ → ℤ → ℤ
or_int n default = if eqb_ℤ n (pos 0) then default else n

-- The body's fields that are zero or missing have these values.
abbrev pub with_defaults : StartRequest → StartRequest
with_defaults r = record r {
  bot_count = or_int r.bot_count (pos 2048);
  duration_secs = or_int r.duration_secs (pos 300);
  endpoint_type = if str_eq r.endpoint_type "" then "WebSocket" else r.endpoint_type;
}

abbrev pub reply_of : {F : Type 0} → Option (BenchmarkSession F) → StartReply F
reply_of none = server_error
reply_of (some s) = accepted s

module _ {F : Type 0} ⦃fl : Float64 F⦄ where
  -- APIHandler.StartSession; a body that does not decode is none.
  unfoldable pub start_handler :
      ℕ → String → Writes → Option StartRequest → Orchestrator F → StartReply F × Orchestrator F
  start_handler now fresh writes none o = (bad_request, o)
  start_handler now fresh writes (some body) o =
      let (sess, o') = start_session now fresh writes (with_defaults body) o in (reply_of sess, o')

  -- APIHandler.GetSession: the session in memory, or what Redis has and decode makes of it; a session
  -- that is in neither is none.
  pub get_session :
      (String → Option String)
      → (String → BenchmarkSession F)
      → String
      → Orchestrator F
      → Option (BenchmarkSession F)
  get_session redis_get decode session_id o = elim (lookup session_id o.sessions) [
    | some sess ↦ some sess
    | none ↦ elim (redis_get (str_append "session:" session_id)) [
      | none ↦ none
      | some data_ ↦ some (decode data_)
    ]
  ]

  pub list_sessions : Orchestrator F → List (BenchmarkSession F)
  list_sessions o = map (λ e. e.1) o.sessions

  -- metricsAggLoop: a field that is there and can be read replaces the session's.
  module _ (scan_float : String → Option F) (scan_int : String → Option ℤ) where
    abbrev float_from : String → Dict String → F → F
    float_from k vals old = elim (lookup k vals) [ none ↦ old | some v ↦ get_or old (scan_float v) ]

    abbrev int_from : String → Dict String → ℤ → ℤ
    int_from k vals old = elim (lookup k vals) [ none ↦ old | some v ↦ get_or old (scan_int v) ]

    abbrev pub with_metrics : Dict String → BenchmarkSession F → BenchmarkSession F
    with_metrics vals s = record s {
      tps = float_from "tps" vals s.tps;
      p50_ns = int_from "p50_ns" vals s.p50_ns;
      p99_ns = int_from "p99_ns" vals s.p99_ns;
    }

    -- One session of a tick, with the hash that Redis answers, or none for an error.
    unfoldable pub aggregate : String → Option (Dict String) → Orchestrator F → Orchestrator F
    aggregate sid none o = o
    aggregate sid (some []) o = o
    aggregate sid (some (v ∷ vals)) o = elim (lookup sid o.sessions) [
      | none ↦ o
      | some s ↦
          (let s' = with_metrics (v ∷ vals) s in
            send_redis (set_session (str_append "session:" sid) s')
              (record o { sessions = insert sid s' o.sessions }))
    ]

    abbrev is_running : SessionStatus → Bool
    is_running running = true
    is_running s = false

    -- The ids that the tick reads under the lock.
    abbrev pub running_ids : Dict (BenchmarkSession F) → List String
    running_ids [] = []
    running_ids ((sid, s) ∷ rest) =
        let ids = running_ids rest in if is_running s.status then sid ∷ ids else ids

    abbrev pub aggregate_each :
        List String → (String → Option (Dict String)) → Orchestrator F → Orchestrator F
    aggregate_each [] hashes o = o
    aggregate_each (sid ∷ sids) hashes o =
        aggregate_each sids hashes (aggregate sid (hashes (str_append "metrics:" sid)) o)

    -- A tick, with what Redis answers for each key.
    unfoldable pub aggregate_tick :
        (String → Option (Dict String)) → Orchestrator F → Orchestrator F
    aggregate_tick hashes o = aggregate_each (running_ids o.sessions) hashes o
