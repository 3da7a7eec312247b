-- ===== src/Orchestrator/Polls.antt =====
-- The handlers of services/bot-orchestrator/main.go that the workers call, and the two that stop a
-- session and list the workers.
use iicpc_summer_hackathon.Prelude.{
  ℕ, String, Bool, true, false, List, Option, none, some, map, length, if◌then◌else◌, str_eq,
}
use iicpc_summer_hackathon.Orchestrator.State.{WorkerCmd, WorkerHeartbeat, WorkerInfo, Orchestrator}
use iicpc_summer_hackathon.Orchestrator.Sessions.{stop_session}
use iicpc_summer_hackathon.Orchestrator.Workers.{begin_poll, take_cmd, update_worker_heartbeat}

-- What ends the select of WorkerPoll: the worker's channel has a command, a message comes from Redis,
-- with the command that it decodes to, or the time or the request is over.
pub data PollEnd : Type 0 where
  from_channel : PollEnd
  from_redis : WorkerCmd → PollEnd
  no_command : PollEnd

-- A reply with a command, or none for 204. The channel is that of the poll's begin.
abbrev pub end_poll :
    {F : Type 0} → String → PollEnd → Orchestrator F → Option WorkerCmd × Orchestrator F
end_poll worker_id from_channel o = take_cmd worker_id o
end_poll worker_id (from_redis cmd) o = (some cmd, o)
end_poll worker_id no_command o = (none, o)

abbrev pub poll_id : String → String → String
poll_id param fresh = if str_eq param "" then fresh else param

module _ {F : Type 0} where
  -- WorkerPoll up to the select, with the worker's id.
  unfoldable pub poll_begin : ℕ → String → String → Orchestrator F → String × Orchestrator F
  unfolding begin_poll
  poll_begin now param fresh o = (poll_id param fresh, begin_poll now (poll_id param fresh) o)

  -- WorkerHeartbeat, where a body that does not decode is none; the reply is true for 200.
  unfoldable pub heartbeat_handler :
      ℕ → Option WorkerHeartbeat → Orchestrator F → Bool × Orchestrator F
  unfolding update_worker_heartbeat
  heartbeat_handler now none o = (false, o)
  heartbeat_handler now (some hb) o = (true, update_worker_heartbeat now hb o)

  unfoldable pub stop_handler : ℕ → String → Orchestrator F → Orchestrator F
  unfolding stop_session
  stop_handler now session_id o = stop_session now session_id o

  unfoldable pub get_workers : Orchestrator F → List WorkerInfo × ℕ
  get_workers o = (map (λ e. e.1) o.workers, length o.workers)
