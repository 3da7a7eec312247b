-- ===== src/Orchestrator/Statuses.antt =====
-- The status of a session and its times, over the calls.
use iicpc_summer_hackathon.Prelude.{
  ℕ, String, ◌≡◌, refl, ◌∙◌, sym, subst, inl, inr, Bool, true, false, List, [], ◌∷◌, Option, none,
  some, arith, if◌then◌else◌, is_some, length, ◌==◌, not, str_eq, Bool-cases, Option-cases,
}
use iicpc_summer_hackathon.Prelude.Int.{ℤ, pos, ltb_ℤ, add64}
use iicpc_summer_hackathon.Prelude.Float.{Float64}
use iicpc_summer_hackathon.Prelude.Dict.{lookup, insert, AllValues, AllValues-insert, AllValues-nil}
use iicpc_summer_hackathon.Orchestrator.State.{
  SessionStatus, pending, running, stopping, done, error, BenchmarkSession, WorkerInfo,
  WorkerHeartbeat, Orchestrator, new_orchestrator,
}
use iicpc_summer_hackathon.Orchestrator.Sessions.{
  StartRequest, Dispatch, Writes, both_done, set_failed, h_set_failed, start_session, keys,
  start_cmd, send_shares, update_session, dispatch_to_workers, mark_running, mark_done,
  stop_session,
}
use iicpc_summer_hackathon.Orchestrator.Workers.{
  register_worker, begin_poll, take_cmd, update_worker, update_worker_heartbeat, credit,
  credit_session, drop_if, timed_out, remove_timed_out, reconcile,
}
use iicpc_summer_hackathon.Orchestrator.Heartbeats.{sessions-update_worker}
use iicpc_summer_hackathon.Orchestrator.Lifecycle.{sessions-send_shares, sessions-stop}
use iicpc_summer_hackathon.Orchestrator.Calls.{
  Call, starts, dispatches, stops, polls, takes, beats, reconciles, step, run,
}

-- What a session's status says of the times of its start and end.
abbrev pub IsTimed : SessionStatus → Option ℕ → Option ℕ → Type 0
IsTimed pending started ended = (started ≡ none) × (ended ≡ none)
IsTimed running started ended = is_some started ≡ true
IsTimed done started ended = is_some ended ≡ true
IsTimed stopping started ended = ⊥
IsTimed error started ended = ⊥

module _ {F : Type 0} where
  abbrev pub Timed : BenchmarkSession F → Type 0
  Timed s = IsTimed s.status s.started_at s.ended_at

  abbrev pub AllTimed : Orchestrator F → Type 0
  AllTimed o = AllValues Timed o.sessions

  same-AllTimed : (o o' : Orchestrator F) → o'.sessions ≡ o.sessions → AllTimed o → AllTimed o'
  same-AllTimed o o' e h = subst (AllValues Timed) (sym e) h

  set_orders-Timed :
      (b : Bool) (n : ℤ) (s : BenchmarkSession F)
      → Timed s
      → Timed (if b then record s { orders_sent = n } else s)
  set_orders-Timed true n s h = h
  set_orders-Timed false n s h = h

  credit-Timed : (delta : ℤ) (s : BenchmarkSession F) → Timed s → Timed (credit delta s)
  credit-Timed delta s h = set_orders-Timed (ltb_ℤ (pos 0) delta) (add64 s.orders_sent delta) s h

  sessions-begin_poll :
      (now : ℕ) (id : String) (o : Orchestrator F) → (begin_poll now id o).sessions ≡ o.sessions
  unfolding begin_poll register_worker
  sessions-begin_poll now id o = ground arith

  sessions-take_cmd : (id : String) (o : Orchestrator F) → (take_cmd id o).1.sessions ≡ o.sessions
  unfolding take_cmd
  sessions-take_cmd id o = ground arith

  sessions-remove_timed_out :
      (now : ℕ) (ws : List (String × WorkerInfo)) (o : Orchestrator F)
      → (remove_timed_out now ws o).sessions ≡ o.sessions
  unfolding remove_timed_out drop_if
  sessions-remove_timed_out now [] o = refl
  sessions-remove_timed_out now ((id, w) ∷ rest) o =
      sessions-remove_timed_out now rest (drop_if (timed_out now w) id o) ∙ ground arith

  set_session-AllTimed :
      (id : String) (s : BenchmarkSession F) (o o' : Orchestrator F)
      → o'.sessions ≡ insert id s o.sessions
      → Timed s
      → AllTimed o
      → AllTimed o'
  set_session-AllTimed id s o o' e t h =
      subst (AllValues Timed) (sym e) (AllValues-insert Timed id s o.sessions t h)

  update_session-AllTimed :
      (f : BenchmarkSession F → BenchmarkSession F) (id : String) (o : Orchestrator F)
      → ((s : BenchmarkSession F) → Timed (f s))
      → AllTimed o
      → AllTimed (update_session f id o)
  update_session-AllTimed f id o t h = cases (lookup id o.sessions)
    where
      cases :
          (found : Option (BenchmarkSession F))
          → AllTimed (elim found [
            | none ↦ o
            | some s ↦ record o { sessions = insert id (f s) o.sessions }
          ])
      cases none = h
      cases (some s) = AllValues-insert Timed id (f s) o.sessions (t s) h

  dispatch-AllTimed :
      (now : ℕ) (d : Dispatch) (o : Orchestrator F)
      → AllTimed o
      → AllTimed (dispatch_to_workers now d o).0
  unfolding dispatch_to_workers
  dispatch-AllTimed now d o h = elim (Bool-cases (length (keys o.workers) == 0)) [
    | inl idle ↦ rw idle h
    | inr busy ↦
        let o' =
          send_shares d.bot_count (length (keys o.workers)) (start_cmd d) 0 (keys o.workers) o in
        rw busy (
          update_session-AllTimed (mark_running now d.bot_count) d.session_id o' (λ s. refl)
            (same-AllTimed o o'
              (sessions-send_shares d.bot_count _ (start_cmd d) 0 (keys o.workers) o) h))
  ]

  stop-AllTimed :
      (now : ℕ) (id : String) (o : Orchestrator F) → AllTimed o → AllTimed (stop_session now id o)
  unfolding stop_session
  stop-AllTimed now id o h = elim (Option-cases (lookup id o.sessions)) [
    | inl e ↦ rw (e, stop_session) h
    | inr (s, e) ↦
        set_session-AllTimed id (mark_done now s) o (stop_session now id o)
          (sessions-stop now id o s e).0 refl h
  ]

  heartbeat-AllTimed :
      (now : ℕ) (hb : WorkerHeartbeat) (o : Orchestrator F)
      → AllTimed o
      → AllTimed (update_worker_heartbeat now hb o)
  unfolding update_worker_heartbeat
  heartbeat-AllTimed now hb o h =
      let o' = update_worker now hb o in
      let h' : AllTimed o' = same-AllTimed o o' (sessions-update_worker now hb o).0 h in
      cases o' h' (str_eq hb.session_id "") (lookup hb.session_id o'.sessions) refl
    where
      cases :
          (o' : Orchestrator F)
          → AllTimed o'
          → (blank : Bool) (found : Option (BenchmarkSession F))
          → lookup hb.session_id o'.sessions ≡ found
          → AllTimed
              (if not blank then elim found [ none ↦ o' | some s ↦ credit_session hb s o' ] else o')
      cases o' h' true found e = h'
      cases o' h' false none e = h'
      cases o' h' false (some s) e =
          AllValues-insert Timed hb.session_id _ o'.sessions
            (credit-Timed _ s (h' hb.session_id s e)) h'

module _ {F : Type 0} ⦃fl : Float64 F⦄ where
  start-AllTimed :
      (now : ℕ) (fresh : String) (writes : Writes) (r : StartRequest) (o : Orchestrator F)
      → AllTimed o
      → AllTimed (start_session now fresh writes r o).1
  unfolding start_session
  start-AllTimed now fresh both_done r o h = AllValues-insert Timed _ _ o.sessions (refl, refl) h
  start-AllTimed now fresh set_failed r o h = AllValues-insert Timed _ _ o.sessions (refl, refl) h
  start-AllTimed now fresh h_set_failed r o h = AllValues-insert Timed _ _ o.sessions (refl, refl) h

  step-AllTimed : (c : Call) (o : Orchestrator F) → AllTimed o → AllTimed (step c o)
  unfolding step reconcile
  step-AllTimed (starts now fresh writes r) o h = start-AllTimed now fresh writes r o h
  step-AllTimed (dispatches now d) o h = dispatch-AllTimed now d o h
  step-AllTimed (stops now id) o h = stop-AllTimed now id o h
  step-AllTimed (polls now id) o h =
      same-AllTimed o (begin_poll now id o) (sessions-begin_poll now id o) h
  step-AllTimed (takes id) o h = same-AllTimed o (take_cmd id o).1 (sessions-take_cmd id o) h
  step-AllTimed (beats now hb) o h = heartbeat-AllTimed now hb o h
  step-AllTimed (reconciles now) o h =
      same-AllTimed o (reconcile now o) (sessions-remove_timed_out now o.workers o) h

  -- After any calls in any order, a pending session has no time of its start or end, a running one has
  -- the time of its start, a done one the time of its end, and no session has another status.
  pub run-Timed : (cs : List Call) → AllValues (Timed {F = F}) (run cs new_orchestrator).sessions
  unfolding run
  run-Timed cs = go cs new_orchestrator (AllValues-nil Timed)
    where
      go : (cs : List Call) (o : Orchestrator F) → AllTimed o → AllTimed (run cs o)
      go [] o h = h
      go (c ∷ cs) o h = go cs (step c o) (step-AllTimed c o h)
