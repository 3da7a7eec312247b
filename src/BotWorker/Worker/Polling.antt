-- ===== src/BotWorker/Worker/Polling.antt =====
-- The loop of OrchestratorPoller.Poll with what its requests bring, and sendHeartbeat.
use iicpc_summer_hackathon.Prelude.{ℕ, ◌+◌, ◌≡◌, refl, List, [], ◌∷◌}
use iicpc_summer_hackathon.Prelude.Int.{pos}
use iicpc_summer_hackathon.Orchestrator.State.{WorkerCmd, WorkerHeartbeat}
use iicpc_summer_hackathon.BotWorker.Worker.{
  Poller, on_command, active_bot_count, total_orders_sent,
}

-- How a round of the loop goes: the request cannot be made, or has no answer, or the answer is 204, or
-- its body does not decode, or it is a command.
pub data PollAnswer : Type 0 where
  no_request no_answer no_content undecodable : PollAnswer
  answer : WorkerCmd → PollAnswer

-- The seconds that the loop sleeps before the next round, and the poller after.
unfoldable pub poll_round : PollAnswer → Poller → ℕ × Poller
poll_round no_request p = (2, p)
poll_round no_answer p = (3, p)
poll_round no_content p = (0, p)
poll_round undecodable p = (0, p)
poll_round (answer cmd) p = (0, on_command cmd p)

-- The loop, until its context ends, with the seconds that it sleeps in all.
unfoldable pub poll : List PollAnswer → Poller → ℕ × Poller
unfolding poll_round
poll [] p = (0, p)
poll (a ∷ answers) p =
    let (pause, p') = poll_round a p in
    let (pauses, last) = poll answers p' in (pause + pauses, last)

-- What sendHeartbeat posts.
abbrev pub heartbeat_of : Poller → WorkerHeartbeat
heartbeat_of p = record {
  worker_id = p.worker.id;
  session_id = p.current_session_id;
  active_bots = pos (active_bot_count p.worker);
  orders_sent = total_orders_sent p.worker;
}

-- The commands among the answers, and what they alone do.
abbrev commands_in : List PollAnswer → List WorkerCmd
commands_in [] = []
commands_in (no_request ∷ answers) = commands_in answers
commands_in (no_answer ∷ answers) = commands_in answers
commands_in (no_content ∷ answers) = commands_in answers
commands_in (undecodable ∷ answers) = commands_in answers
commands_in (answer cmd ∷ answers) = cmd ∷ commands_in answers

abbrev obey : List WorkerCmd → Poller → Poller
obey [] p = p
obey (cmd ∷ cmds) p = obey cmds (on_command cmd p)

-- Failed and empty rounds change nothing: the poller is what the commands alone make of it.
pub poll_lem :
    (answers : List PollAnswer) (p : Poller) → (poll answers p).1 ≡ obey (commands_in answers) p
unfolding poll poll_round
poll_lem [] p = refl
poll_lem (no_request ∷ answers) p = poll_lem answers p
poll_lem (no_answer ∷ answers) p = poll_lem answers p
poll_lem (no_content ∷ answers) p = poll_lem answers p
poll_lem (undecodable ∷ answers) p = poll_lem answers p
poll_lem (answer cmd ∷ answers) p = poll_lem answers (on_command cmd p)
