-- ===== src/ApiGateway/RateLimiter/Overlap.antt =====
-- Two pipelines of Allow whose commands Redis interleaves.
use iicpc_summer_hackathon.Prelude.{
  ℕ, suc, ◌<◌, String, ◌≡◌, refl, ap, ◌∙◌, Bool, true, false, List, [], ◌∷◌, Option, none, some,
  ltb, arith, str_eq,
}
use iicpc_summer_hackathon.Prelude.Int.{ℤ, sub_ℕ}
use iicpc_summer_hackathon.Prelude.Merge.{Merge, both_done, from_first, from_second}
use iicpc_summer_hackathon.ApiGateway.RateLimiter.{
  SortedSets, IsStore, Command, drops, counts, adds, expires, pipeline, executed, redis_key, allow,
}

module _ {S : Type 0} (r : SortedSets S) where
  -- A command at a key, with the answer to ZCARD.
  abbrev pub run_command : String → Command → S → Option ℕ × S
  run_command k (drops bound) s = (none, r.z_rem_range_by_score k bound s)
  run_command k counts s = (some (r.z_card k s), s)
  run_command k (adds t member) s = (none, r.z_add k t member s)
  run_command k (expires ttl) s = (none, r.expire k ttl s)

  -- The answers to ZCARD of commands in this order, and the store after them.
  abbrev pub run_commands : String → List Command → S → List ℕ × S
  run_commands k [] s = ([], s)
  run_commands k (c ∷ cs) s =
      let (answer, s') = run_command k c s in
      let (answers, s'') = run_commands k cs s' in
      (elim answer [ none ↦ answers | some n ↦ n ∷ answers ], s'')

  -- Allow is its pipeline, with the count against the limit.
  pub allow-pipeline :
      (key : String) (limit window now : ℕ) (member : String) (s : S)
      → (n : ℕ) × (run_commands (redis_key key) (pipeline now window member) s
          ≡ (n ∷ [], (allow r key limit window now member executed s).1))
        × ((allow r key limit window now member executed s).0 ≡ ltb n limit)
  unfolding allow
  allow-pipeline key limit window now member s = (
    r.z_card (redis_key key) (r.z_rem_range_by_score (redis_key key) (sub_ℕ now window) s),
    refl,
    refl,
  )

-- The pipelines of two requests, the second one's counting before the first one's adding.
abbrev pub interleaved : ℕ → ℕ → String → String → List Command
interleaved now window first second =
    drops (sub_ℕ now window)
    ∷ counts
    ∷ drops (sub_ℕ now window)
    ∷ counts
    ∷ adds now first
    ∷ expires window
    ∷ adds now second
    ∷ expires window
    ∷ []

interleaved-Merge :
    (now window : ℕ) (first second : String)
    → Merge
        (pipeline now window first)
        (pipeline now window second)
        (interleaved now window first second)
interleaved-Merge now window first second = from_first (
    from_first
      (from_second (from_second (from_first (from_first (from_second (from_second both_done)))))))

module _ {S : Type 0} (r : SortedSets S) (count : String → ℤ → S → ℕ)
    (has : String → String → S → Bool) (law : IsStore r count has) where
  count-add_expire :
      (k : String) (now window : ℕ) (member : String) (s : S)
      → 0 < window
      → has k member s ≡ false
      → count k (sub_ℕ now window) (r.expire k window (r.z_add k now member s))
        ≡ suc (count k (sub_ℕ now window) s)
  count-add_expire k now window member s lasting new =
      law.kept k window _ _ lasting
      ∙ law.added k now member (sub_ℕ now window) s new
      ∙ ground (arith, lasting)

  -- Where one place is left in the window, the commands of two requests in the same millisecond, with
  -- members of their own, can come to Redis in an order, each request's own order kept, in which both
  -- counts are under the limit, so that both are let through, and after which the window has one entry
  -- more than the limit.
  pub overlapping_exceed :
      (key : String) (limit window now : ℕ) (first second : String) (s : S)
      → 0 < window
      → suc (count (redis_key key) (sub_ℕ now window) s) ≡ limit
      → str_eq first second ≡ false
      → has (redis_key key) first s ≡ false
      → has (redis_key key) second s ≡ false
      → (cmds : List Command) × (m : ℕ) × (n : ℕ) × Merge
          (pipeline now window first)
          (pipeline now window second)
          cmds
        × ((run_commands r (redis_key key) cmds s).0 ≡ m ∷ n ∷ [])
        × (ltb m limit ≡ true)
        × (ltb n limit ≡ true)
        × (count (redis_key key) (sub_ℕ now window) (run_commands r (redis_key key) cmds s).1
            ≡ suc limit)
  overlapping_exceed key limit window now first second s lasting left ne new new' =
      let k = redis_key key in
      let b = sub_ℕ now window in
      let s1 = r.z_rem_range_by_score k b s in
      let s2 = r.z_rem_range_by_score k b s1 in
      let s3 = r.expire k window (r.z_add k now first s2) in
      let same : count k b s1 ≡ count k b s = law.removed k b b s (omega arith) in
      let same' : count k b s2 ≡ count k b s = law.removed k b b s1 (omega arith) ∙ same in
      let there = law.removed_new k first b s1 (law.removed_new k first b s new) in
      let there' : has k second s3 ≡ false = law.kept_new k second window _ lasting (
        law.added_new k second first now s2 ne
          (law.removed_new k second b s1 (law.removed_new k second b s new'))) in
      (
        interleaved now window first second,
        r.z_card k s1,
        r.z_card k s2,
        interleaved-Merge now window first second,
        refl,
        ground (arith, law.card k b s, left),
        ground (arith, law.card k b s1, same, left),
        count-add_expire k now window second s3 lasting there'
            ∙ ap suc (count-add_expire k now window first s2 lasting there ∙ ap suc same' ∙ left),
      )
