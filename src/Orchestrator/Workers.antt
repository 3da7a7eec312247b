-- ===== src/Orchestrator/Workers.antt =====
-- The workers' side of services/bot-orchestrator/main.go: registration, heartbeats, the removal of
-- silent workers, and the long poll.
use Prim.Native.String.{◌++◌ as str_append}
use iicpc_summer_hackathon.Prelude.{
  ℕ, ◌-◌, String, Bool, List, [], ◌∷◌, Option, none, some, if◌then◌else◌, ltb, not, str_eq,
}
use iicpc_summer_hackathon.Prelude.Int.{ℤ, pos, ltb_ℤ, add64, sub64}
use iicpc_summer_hackathon.Prelude.Dict.{lookup, insert, delete}
use iicpc_summer_hackathon.Orchestrator.State.{
  BenchmarkSession, WorkerInfo, WorkerCmd, WorkerHeartbeat, Orchestrator,
}

abbrev pub new_worker : ℕ → String → WorkerInfo
new_worker now worker_id = record {
  worker_id = worker_id;
  session_id = "";
  active_bots = pos 0;
  orders_sent = pos 0;
  last_seen = now;
}

-- 60 seconds.
abbrev pub worker_timeout : ℕ
worker_timeout = 60000000000

abbrev pub timed_out : ℕ → WorkerInfo → Bool
timed_out now w = ltb worker_timeout (now - w.last_seen)

abbrev pub or_zero : Option ℤ → ℤ
or_zero none = pos 0
or_zero (some n) = n

abbrev pub report_key : WorkerHeartbeat → String
report_key hb = str_append hb.worker_id (str_append ":" hb.session_id)

abbrev pub heard : ℕ → WorkerHeartbeat → WorkerInfo → WorkerInfo
heard now hb w = record w {
  active_bots = hb.active_bots;
  orders_sent = hb.orders_sent;
  session_id = hb.session_id;
  last_seen = now;
}

module _ {F : Type 0} where
  -- A new record and a new, empty channel, whatever the worker had.
  unfoldable pub register_worker : ℕ → String → Orchestrator F → Orchestrator F
  register_worker now worker_id o = record o {
    workers = insert worker_id (new_worker now worker_id) o.workers;
    cmd_chans = insert worker_id [] o.cmd_chans;
  }

  abbrev pub touch_worker : ℕ → String → Orchestrator F → Orchestrator F
  touch_worker now worker_id o = elim (lookup worker_id o.workers) [
    | none ↦ o
    | some w ↦ record o { workers = insert worker_id (record w { last_seen = now }) o.workers }
  ]

  -- The registration at the start of a long poll.
  unfoldable pub begin_poll : ℕ → String → Orchestrator F → Orchestrator F
  unfolding register_worker
  begin_poll now worker_id o = touch_worker now worker_id (register_worker now worker_id o)

  -- The poll's answer from the channel of its registration, which stands in the map until the worker
  -- registers again or is removed: the oldest command, if there is one.
  unfoldable pub take_cmd : String → Orchestrator F → Option WorkerCmd × Orchestrator F
  take_cmd worker_id o = elim (lookup worker_id o.cmd_chans) [
    | none ↦ (none, o)
    | some [] ↦ (none, o)
    | some (cmd ∷ ch) ↦ (some cmd, record o { cmd_chans = insert worker_id ch o.cmd_chans })
  ]

  abbrev pub update_worker : ℕ → WorkerHeartbeat → Orchestrator F → Orchestrator F
  update_worker now hb o = elim (lookup hb.worker_id o.workers) [
    | none ↦ o
    | some w ↦ record o { workers = insert hb.worker_id (heard now hb w) o.workers }
  ]

  -- What a report adds to the session: the growth since the last report, if it grew.
  abbrev pub credit : ℤ → BenchmarkSession F → BenchmarkSession F
  credit delta s =
      if ltb_ℤ (pos 0) delta then record s { orders_sent = add64 s.orders_sent delta } else s

  abbrev pub credit_session : WorkerHeartbeat → BenchmarkSession F → Orchestrator F → Orchestrator F
  credit_session hb s o =
      let delta = sub64 hb.orders_sent (or_zero (lookup (report_key hb) o.last_reported_orders)) in
      record o {
        sessions = insert hb.session_id (credit delta s) o.sessions;
        last_reported_orders = insert (report_key hb) hb.orders_sent o.last_reported_orders;
      }

  unfoldable pub update_worker_heartbeat : ℕ → WorkerHeartbeat → Orchestrator F → Orchestrator F
  update_worker_heartbeat now hb o =
      let o' = update_worker now hb o in
      if not (str_eq hb.session_id "")
      then (elim (lookup hb.session_id o'.sessions) [ none ↦ o' | some s ↦ credit_session hb s o' ])
      else o'

  unfoldable pub drop_if : Bool → String → Orchestrator F → Orchestrator F
  drop_if late id o =
      if late
      then record o { workers = delete id o.workers; cmd_chans = delete id o.cmd_chans }
      else o

  -- One round of reconcileLoop, over the workers it finds.
  unfoldable pub remove_timed_out : ℕ → List (String × WorkerInfo) → Orchestrator F → Orchestrator F
  remove_timed_out now [] o = o
  remove_timed_out now ((id, w) ∷ rest) o =
      remove_timed_out now rest (drop_if (timed_out now w) id o)

  unfoldable pub reconcile : ℕ → Orchestrator F → Orchestrator F
  reconcile now o = remove_timed_out now o.workers o
