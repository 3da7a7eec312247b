-- ===== src/ApiGateway/Tests/Overlapping.antt =====
-- A test of two pipelines that overlap.
use iicpc_summer_hackathon.Prelude.{ℕ, ◌≡◌, refl, true, List, [], ◌∷◌, ltb, arith}
use iicpc_summer_hackathon.Prelude.Int.{sub_ℕ}
use iicpc_summer_hackathon.Prelude.Dict.{lookup}
use iicpc_summer_hackathon.Prelude.Merge.{Merge}
use iicpc_summer_hackathon.ApiGateway.RateLimiter.{Command, pipeline, redis_key}
use iicpc_summer_hackathon.ApiGateway.RateLimiter.Overlap.{run_commands, overlapping_exceed}
use iicpc_summer_hackathon.ApiGateway.Tests.Memory.{memory, count_of, has_member, memory-IsStore}

overlapping_exceed_example :
    (cmds : List Command) × (m : ℕ) × (n : ℕ) × Merge
      (pipeline 5000 1000 "a")
      (pipeline 5000 1000 "b")
      cmds
    × ((run_commands memory (redis_key "team") cmds []).0 ≡ m ∷ n ∷ [])
    × (ltb m 1 ≡ true)
    × (ltb n 1 ≡ true)
    × (count_of
          (redis_key "team")
          (sub_ℕ 5000 1000)
          (run_commands memory (redis_key "team") cmds []).1
        ≡ 2)
unfolding lookup
overlapping_exceed_example =
    overlapping_exceed memory count_of has_member memory-IsStore "team" 1 1000 5000 "a" "b" []
      (omega arith) refl refl refl refl
