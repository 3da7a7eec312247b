-- ===== src/BotWorker/Tests/Answers.antt =====
-- Tests of the answers' channel.
use iicpc_summer_hackathon.Prelude.{ℕ, zero, suc, ◌≤◌, ◌≡◌, List, [], ◌∷◌, ◌++◌, length}
use iicpc_summer_hackathon.BotWorker.Order.{OrderResponse}
use iicpc_summer_hackathon.BotWorker.Exchange.Wire.{
  Move, skips, sends, takes, reads, new_wire, acks_capacity, run_wire,
}
use iicpc_summer_hackathon.BotWorker.Exchange.Wire.Answers.{
  taken, on_the_way, answers, run_wire_lem,
}
use iicpc_summer_hackathon.BotWorker.Tests.{answer}

abbrev turns : List (Move ℕ)
turns =
    reads (answer "o1")
    ∷ sends
    ∷ skips
    ∷ reads (answer "o2")
    ∷ takes
    ∷ sends
    ∷ reads (answer "o3")
    ∷ []

run_wire_lem_example :
    (length (run_wire turns new_wire).acks ≤ acks_capacity)
    × (taken turns new_wire ++ on_the_way (run_wire turns new_wire) ≡ answers turns new_wire)
run_wire_lem_example = run_wire_lem turns

abbrev copies : ℕ → List (OrderResponse ℕ)
copies zero = []
copies (suc n) = answer "o" ∷ copies n
