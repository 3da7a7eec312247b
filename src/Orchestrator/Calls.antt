-- ===== src/Orchestrator/Calls.antt =====
-- The calls that the orchestrator serves, in any order.
use iicpc_summer_hackathon.Prelude.{ℕ, ◌≤◌, String, refl, List, [], ◌∷◌, length}
use iicpc_summer_hackathon.Prelude.Float.{Float64}
use iicpc_summer_hackathon.Prelude.Dict.{lookup, AllValues-nil}
use iicpc_summer_hackathon.Orchestrator.State.{
  WorkerHeartbeat, Orchestrator, chan_capacity, new_orchestrator,
}
use iicpc_summer_hackathon.Orchestrator.Sessions.{
  StartRequest, Dispatch, Writes, both_done, set_failed, h_set_failed, start_session,
  dispatch_to_workers, stop_session,
}
use iicpc_summer_hackathon.Orchestrator.Workers.{
  begin_poll, take_cmd, update_worker_heartbeat, reconcile,
}
use iicpc_summer_hackathon.Orchestrator.Registry.{WellFormed, reconcile-WellFormed}
use iicpc_summer_hackathon.Orchestrator.Channels.{
  register-WellFormed, same_registry-WellFormed, heartbeat-WellFormed, take_cmd-WellFormed,
  dispatch-WellFormed, stop_session-WellFormed,
}

pub data Call : Type 0 where
  starts : ℕ → String → Writes → StartRequest → Call
  dispatches : ℕ → Dispatch → Call
  stops : ℕ → String → Call
  polls : ℕ → String → Call
  takes : String → Call
  beats : ℕ → WorkerHeartbeat → Call
  reconciles : ℕ → Call

module _ {F : Type 0} ⦃fl : Float64 F⦄ where
  unfoldable pub step : Call → Orchestrator F → Orchestrator F
  step (starts now fresh writes r) o = (start_session now fresh writes r o).1
  step (dispatches now d) o = (dispatch_to_workers now d o).0
  step (stops now id) o = stop_session now id o
  step (polls now id) o = begin_poll now id o
  step (takes id) o = (take_cmd id o).1
  step (beats now hb) o = update_worker_heartbeat now hb o
  step (reconciles now) o = reconcile now o

  unfoldable pub run : List Call → Orchestrator F → Orchestrator F
  run [] o = o
  run (c ∷ cs) o = run cs (step c o)

  start_session-WellFormed :
      (now : ℕ) (fresh : String) (writes : Writes) (r : StartRequest) (o : Orchestrator F)
      → WellFormed o
      → WellFormed (start_session now fresh writes r o).1
  unfolding start_session
  start_session-WellFormed now fresh both_done r o h = same_registry-WellFormed o _ refl refl h
  start_session-WellFormed now fresh set_failed r o h = same_registry-WellFormed o _ refl refl h
  start_session-WellFormed now fresh h_set_failed r o h = same_registry-WellFormed o _ refl refl h

  step-WellFormed : (c : Call) (o : Orchestrator F) → WellFormed o → WellFormed (step c o)
  unfolding step
  step-WellFormed (starts now fresh writes r) o h = start_session-WellFormed now fresh writes r o h
  step-WellFormed (dispatches now d) o h = dispatch-WellFormed now d o h
  step-WellFormed (stops now id) o h = stop_session-WellFormed now id o h
  step-WellFormed (polls now id) o h = register-WellFormed now id o h
  step-WellFormed (takes id) o h = take_cmd-WellFormed id o h
  step-WellFormed (beats now hb) o h = heartbeat-WellFormed now hb o h
  step-WellFormed (reconciles now) o h = reconcile-WellFormed now o h

  -- After any calls in any order, no worker is registered twice, a worker has a command channel
  -- exactly when it is registered, and no channel holds more than 64 commands.
  pub run-WellFormed : (cs : List Call) → WellFormed (run cs new_orchestrator)
  unfolding run lookup
  run-WellFormed cs = go cs new_orchestrator (record {
    unique = tt;
    agree = λ k. refl;
    capped = AllValues-nil (λ ch. length ch ≤ chan_capacity);
  })
    where
      go : (cs : List Call) (o : Orchestrator F) → WellFormed o → WellFormed (run cs o)
      go [] o h = h
      go (c ∷ cs) o h = go cs (step c o) (step-WellFormed c o h)
