-- ===== src/Scoring/Engine/Board.antt =====
-- The leaderboard that a round publishes.
use mathlib.Core.List.{Perm}
use iicpc_summer_hackathon.Prelude.{
  ℕ, suc, ◌≤◌, String, ◌≡◌, refl, List, [], ◌∷◌, Option, none, some, arith, length,
}
use iicpc_summer_hackathon.Prelude.Int.{ℤ}
use iicpc_summer_hackathon.Prelude.Float.{Float64, IsOrdered}
use iicpc_summer_hackathon.Prelude.Float.Arithmetic.{le_trans_float, le_of_lt_float}
use iicpc_summer_hackathon.Prelude.Sort.{
  sort_slice, IsSorted, sort_slice-IsSorted, sort_slice-perm, length-sort_slice,
}
use iicpc_summer_hackathon.Scoring.Engine.{
  LeaderboardEntry, ScoreStore, Codec, score_at, collect, above, publish_entries,
  publish_leaderboard,
}

module _ {S F : Type 0} ⦃fl : Float64 F⦄ (r : ScoreStore S F) (c : Codec F) where
  length-collect_one :
      (o : Option (LeaderboardEntry F)) (rest : List (LeaderboardEntry F))
      → length (elim o [ none ↦ rest | some e ↦ e ∷ rest ]) ≤ suc (length rest)
  length-collect_one none rest = omega arith
  length-collect_one (some e) rest = omega arith

  length-collect : (sids : List String) (s : S) → length (collect r c sids s) ≤ length sids
  unfolding collect
  length-collect [] s = omega arith
  length-collect (sid ∷ sids) s =
      let one = length-collect_one (score_at r c sid s) (collect r c sids s) in
      omega (arith, one, length-collect sids s)

  -- ZREVRANGE key start stop answers with at most stop - start + 1 members.
  abbrev pub RangesWithin : Type 0
  RangesWithin =
      (key : String) (n : ℕ) (s : S) (sids : List String)
      → r.z_rev_range key 0 n s ≡ some sids
      → length sids ≤ suc n

  -- The board of a list of sessions: their scores, best first, and no more of them than asked for.
  abbrev pub IsBoardOf : List String → S → List (LeaderboardEntry F) → Type 0
  IsBoardOf sids s entries =
      IsSorted (above r c) entries × Perm entries (collect r c sids s) × (length entries ≤ 50)

  module _ (o : IsOrdered fl) where
    collect-IsBoardOf :
        (sids : List String) (s : S)
        → length sids ≤ 50
        → IsBoardOf sids s (sort_slice (above r c) (collect r c sids s))
    collect-IsBoardOf sids s h = (
      sort_slice-IsSorted (above r c)
          (λ x y e. le_of_lt_float fl o y.composite_score x.composite_score e)
          (λ x y z p q.
            le_trans_float fl o z.composite_score y.composite_score x.composite_score q p)
          (collect r c sids s),
      sort_slice-perm (above r c) (collect r c sids s),
      omega (arith, length-collect sids s, length-sort_slice (above r c) (collect r c sids s)),
    )

    -- Where Redis answers the range, with no more members than asked for, the round writes the snapshot, and
    -- publishes, a board of exactly the scores that the sessions in the answer have: best first, each of them
    -- once, and at most 50 entries.
    pub publish_leaderboard_lem :
        RangesWithin
        → (now : ℤ) (s : S) (sids : List String) → r.z_rev_range "leaderboard" 0 49 s ≡ some sids
        → (entries : List (LeaderboardEntry F)) × IsBoardOf sids s entries
          × (publish_leaderboard r c now s ≡ publish_entries r c now entries s)
    unfolding publish_leaderboard
    publish_leaderboard_lem h now s sids e = (
      sort_slice (above r c) (collect r c sids s),
      collect-IsBoardOf sids s (h _ _ _ _ e),
      rw (e, publish_leaderboard) refl,
    )
