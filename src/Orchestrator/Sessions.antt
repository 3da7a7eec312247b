-- ===== src/Orchestrator/Sessions.antt =====
-- StartSession, dispatchToWorkers and StopSession of services/bot-orchestrator/main.go.
use Prim.Native.String.{◌++◌ as str_append}
use iicpc_summer_hackathon.Prelude.{
  ℕ, suc, ◌+◌, ◌/◌, ◌%◌, String, Bool, true, false, List, [], ◌∷◌, Option, none, some, map,
  if◌then◌else◌, length, ◌==◌, str_eq,
}
use iicpc_summer_hackathon.Prelude.Int.{ℤ, pos, negsuc, sub_ℕ, ltb_ℤ, add64}
use iicpc_summer_hackathon.Prelude.Dict.{Dict, lookup, insert}
use iicpc_summer_hackathon.Prelude.Float.{Float64}
use iicpc_summer_hackathon.Orchestrator.State.{
  pending, running, done, BenchmarkSession, WorkerCmd, set_session, h_set, publish_event,
  publish_cmd, Orchestrator, offer, send_redis,
}

-- Go's `/` and `%` by a positive number, which truncate towards 0.
abbrev pub quot : ℤ → ℕ → ℤ
quot (pos n) k = pos (n / k)
quot (negsuc n) k = sub_ℕ 0 (suc n / k)

abbrev pub rem : ℤ → ℕ → ℤ
rem (pos n) k = pos (n % k)
rem (negsuc n) k = sub_ℕ 0 (suc n % k)

-- What StartSession is asked for.
pub record StartRequest : Type 0 where
  pub submission_id : String
  pub session_id : String
  pub team_name : String
  pub language : String
  pub target_url : String
  pub endpoint_type : String
  pub bot_count : ℤ
  pub duration_secs : ℤ

-- What dispatchToWorkers is asked for.
pub record Dispatch : Type 0 where
  pub session_id : String
  pub target_url : String
  pub endpoint_type : String
  pub bot_count : ℤ
  pub duration_secs : ℤ

-- How the two writes to Redis of StartSession end: the first error stops the request.
pub data Writes : Type 0 where
  both_done set_failed h_set_failed : Writes

abbrev pub keys {ℓ} : {V : Type ℓ} → Dict V → List String
keys = map (λ e. e.0)

module _ {F : Type 0} ⦃fl : Float64 F⦄ where
  abbrev pub new_session : ℕ → String → StartRequest → BenchmarkSession F
  new_session now session_id r = record {
    session_id = session_id;
    submission_id = r.submission_id;
    status = pending;
    target_url = r.target_url;
    endpoint_type = r.endpoint_type;
    bot_count = r.bot_count;
    duration_secs = r.duration_secs;
    active_bots = pos 0;
    orders_sent = pos 0;
    orders_acked = pos 0;
    tps = fl.decimal 0 0;
    p50_ns = pos 0;
    p99_ns = pos 0;
    created_at = now;
    started_at = none;
    ended_at = none;
  }

  -- `fresh` is the answer of the uuid library. The result is the session, or none for an error; the
  -- dispatch to the workers runs on its own and follows as a step.
  unfoldable pub start_session :
      ℕ
      → String
      → Writes
      → StartRequest
      → Orchestrator F
      → Option (BenchmarkSession F) × Orchestrator F
  start_session now fresh writes r o =
      let id = if str_eq r.session_id "" then fresh else r.session_id in
      let sess = new_session now id r in
      let stored = record o { sessions = insert id sess o.sessions } in
      let saved = send_redis (set_session (str_append "session:" id) sess) stored in
      let meta =
        send_redis
          (h_set (str_append "session_meta:" id) (
            ("team_name", r.team_name)
            ∷ ("language", r.language)
            ∷ ("submission_id", r.submission_id)
            ∷ []))
          saved in
      elim writes [
        | set_failed ↦ (none, stored)
        | h_set_failed ↦ (none, saved)
        | both_done ↦ (some sess, send_redis (publish_event "events" id) meta)
      ]

abbrev pub start_cmd : Dispatch → ℤ → WorkerCmd
start_cmd d bots = record {
  command = "START";
  session_id = d.session_id;
  target_url = d.target_url;
  bot_count = bots;
  endpoint_type = d.endpoint_type;
}

-- The bots of worker `i`: an equal part, and one more for the first `remainder` workers.
unfoldable pub bots_for : ℤ → ℕ → ℕ → ℤ
bots_for bot_count workers i =
    if ltb_ℤ (pos i) (rem bot_count workers)
    then add64 (quot bot_count workers) (pos 1)
    else quot bot_count workers

abbrev pub stop_cmd : String → WorkerCmd
stop_cmd session_id = record {
  command = "STOP";
  session_id = session_id;
  target_url = "";
  bot_count = pos 0;
  endpoint_type = "";
}

-- The command goes to every channel that has room.
abbrev pub offer_all : WorkerCmd → Dict (List WorkerCmd) → Dict (List WorkerCmd)
offer_all cmd = map (λ e. (e.0, (offer cmd e.1).1))

module _ {F : Type 0} where
  -- One worker's command: into its channel, or to Redis where that is full.
  unfoldable pub send_to : String → WorkerCmd → Orchestrator F → Orchestrator F
  send_to wid cmd o = elim (lookup wid o.cmd_chans) [
    | none ↦ o
    | some ch ↦
        (let (sent, ch') = offer cmd ch in
          if sent
          then record o { cmd_chans = insert wid ch' o.cmd_chans }
          else send_redis (publish_cmd (str_append "worker:" wid) cmd) o)
  ]

  -- The loop over the workers, from place `i`, with `k` workers in all.
  unfoldable pub send_shares :
      ℤ → ℕ → (ℤ → WorkerCmd) → ℕ → List String → Orchestrator F → Orchestrator F
  unfolding bots_for send_to
  send_shares bot_count k cmd i [] o = o
  send_shares bot_count k cmd i (wid ∷ wids) o =
      send_shares bot_count k cmd (i + 1) wids (send_to wid (cmd (bots_for bot_count k i)) o)

  abbrev pub mark_running : ℕ → ℤ → BenchmarkSession F → BenchmarkSession F
  mark_running now bot_count s = record s {
    status = running;
    started_at = some now;
    active_bots = bot_count;
  }

  abbrev pub update_session :
      (BenchmarkSession F → BenchmarkSession F) → String → Orchestrator F → Orchestrator F
  update_session f id o = elim (lookup id o.sessions) [
    | none ↦ o
    | some s ↦ record o { sessions = insert id (f s) o.sessions }
  ]

  -- The part of dispatchToWorkers under the lock, after the wait. The Boolean says whether the timer
  -- of the automatic stop has been started.
  unfoldable pub dispatch_to_workers : ℕ → Dispatch → Orchestrator F → Orchestrator F × Bool
  dispatch_to_workers now d o =
      if length (keys o.workers) == 0
      then (send_redis (publish_cmd "worker:broadcast" (start_cmd d d.bot_count)) o, false)
      else (
        update_session (mark_running now d.bot_count) d.session_id
            (send_shares d.bot_count (length (keys o.workers)) (start_cmd d) 0 (keys o.workers) o),
        true,
      )

  abbrev pub mark_done : ℕ → BenchmarkSession F → BenchmarkSession F
  mark_done now s = record s { status = done; ended_at = some now }

  unfoldable pub stop_session : ℕ → String → Orchestrator F → Orchestrator F
  stop_session now session_id o = elim (lookup session_id o.sessions) [
    | none ↦ o
    | some s ↦ send_redis (publish_cmd "worker:broadcast" (stop_cmd session_id)) (record o {
      sessions = insert session_id (mark_done now s) o.sessions;
      cmd_chans = offer_all (stop_cmd session_id) o.cmd_chans;
    })
  ]
