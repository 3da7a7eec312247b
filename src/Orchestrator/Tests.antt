-- ===== src/Orchestrator/Tests.antt =====
-- Tests of the orchestrator's modules.
use iicpc_summer_hackathon.Prelude.{
  ℕ, zero, suc, ◌+◌, ◌≡◌, refl, List, [], ◌∷◌, some, arith, eq_iff,
}
use iicpc_summer_hackathon.Prelude.Int.{pos}
use iicpc_summer_hackathon.Prelude.Float.{Float64}
use iicpc_summer_hackathon.Prelude.Float.Fixed.{fixed_point}
use iicpc_summer_hackathon.Prelude.Dict.{AllValues, lookup}
use iicpc_summer_hackathon.Orchestrator.State.{
  running, BenchmarkSession, Orchestrator, WorkerHeartbeat, new_orchestrator,
}
use iicpc_summer_hackathon.Orchestrator.Sessions.{
  StartRequest, Dispatch, both_done, new_session, dispatch_to_workers, stop_session,
}
use iicpc_summer_hackathon.Orchestrator.Workers.{new_worker}
use iicpc_summer_hackathon.Orchestrator.Waiting.{
  Look, half_second, deadline_of, IsPaced, Ended, wait_for_workers-Ended,
}
use iicpc_summer_hackathon.Orchestrator.Shares.{dispatch_assigns, assigned}
use iicpc_summer_hackathon.Orchestrator.Heartbeats.{heartbeats_exact, heartbeats, counted}
use iicpc_summer_hackathon.Orchestrator.Registry.{WellFormed}
use iicpc_summer_hackathon.Orchestrator.Calls.{
  Call, starts, dispatches, stops, polls, takes, beats, reconciles, run, run-WellFormed,
}
use iicpc_summer_hackathon.Orchestrator.Statuses.{Timed, run-Timed}
use iicpc_summer_hackathon.Orchestrator.Lifecycle.{late_dispatch_revives}

instance abbrev tps_units : Float64 ℕ
tps_units = fixed_point

abbrev request : StartRequest
request = record {
  submission_id = "sub";
  session_id = "s";
  team_name = "team";
  language = "go";
  target_url = "http://target:8080";
  endpoint_type = "REST";
  bot_count = pos 5;
  duration_secs = pos 60;
}

abbrev start : Dispatch
start = record {
  session_id = "s";
  target_url = "http://target:8080";
  endpoint_type = "REST";
  bot_count = pos 5;
  duration_secs = pos 60;
}

abbrev session : BenchmarkSession ℕ
session = new_session 1 "s" request

-- A session and two workers.
abbrev two_workers : Orchestrator ℕ
two_workers = record {
  sessions = ("s", session) ∷ [];
  workers = ("w1", new_worker 1 "w1") ∷ ("w2", new_worker 1 "w2") ∷ [];
  cmd_chans = ("w1", []) ∷ ("w2", []) ∷ [];
  last_reported_orders = [];
  redis = [];
}

abbrev beat : WorkerHeartbeat
beat = record { worker_id = "w1"; session_id = "s"; active_bots = pos 3; orders_sent = pos 0 }

dispatch_assigns_example :
    assigned (dispatch_to_workers 7 start two_workers).0 ≡ assigned two_workers + 5
unfolding lookup
dispatch_assigns_example =
    dispatch_assigns 7 5 start two_workers refl (omega arith) (omega arith) (refl, (refl, tt))

heartbeats_exact_example :
    counted "s" (heartbeats beat ((10, 4) ∷ (20, 4) ∷ (30, 9) ∷ []) two_workers) ≡ some (pos 9)
unfolding lookup
heartbeats_exact_example =
    heartbeats_exact beat ((10, 4) ∷ (20, 4) ∷ (30, 9) ∷ []) two_workers 0 0
      (λ e. ground (arith, eq_iff "s" "")) (record { total_counted = refl; last_reported = refl })
      (omega arith) (omega arith, (omega arith, (omega arith, tt)))
      (omega arith, (omega arith, (omega arith, tt)))

abbrev calls : List Call
calls =
    starts 1 "s" both_done request
    ∷ polls 2 "w1"
    ∷ polls 2 "w2"
    ∷ dispatches 3 start
    ∷ takes "w1"
    ∷ beats 4 beat
    ∷ stops 5 "s"
    ∷ reconciles 6
    ∷ []

run-WellFormed_example : WellFormed {F = ℕ} (run calls new_orchestrator)
run-WellFormed_example = run-WellFormed {F = ℕ} calls

abbrev after_calls : Orchestrator ℕ
after_calls = run calls new_orchestrator

late_dispatch_revives_example :
    (s : BenchmarkSession ℕ) × (lookup "s"
        (dispatch_to_workers 7 start (stop_session 5 "s" two_workers)).0.sessions
      ≡ some s)
    × (s.status ≡ running)
    × (s.ended_at ≡ some 5)
unfolding lookup
late_dispatch_revives_example =
    late_dispatch_revives 5 7 start two_workers session refl (omega arith)

run-Timed_example : AllValues (Timed {F = ℕ}) (run calls new_orchestrator).sessions
run-Timed_example = run-Timed {F = ℕ} calls

-- Looks half a second apart, in each of which a worker is there from this count on.
abbrev looks_from : ℕ → ℕ → ℕ → List Look
looks_from t none_for zero = []
looks_from t zero (suc n) =
    record { at = t; worker_count = 1 } ∷ looks_from (t + half_second) zero n
looks_from t (suc k) (suc n) =
    record { at = t; worker_count = 0 } ∷ looks_from (t + half_second) k n

looks_from-IsPaced : (t k n : ℕ) → IsPaced t (looks_from t k n)
looks_from-IsPaced t k zero = tt
looks_from-IsPaced t zero (suc n) = (omega arith, looks_from-IsPaced (t + half_second) zero n)
looks_from-IsPaced t (suc k) (suc n) = (omega arith, looks_from-IsPaced (t + half_second) k n)

wait_for_workers-Ended_example : Ended (deadline_of 7) (looks_from 7 3 21)
wait_for_workers-Ended_example =
    wait_for_workers-Ended 7 (looks_from 7 3 21) (looks_from-IsPaced 7 3 21) (omega arith)
