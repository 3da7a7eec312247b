-- ===== src/Orchestrator/Shares.antt =====
-- How the bots of a session are shared out among the workers.
use Prim.Native.String.{◌++◌ as str_append}
use native.Mathlib.Nat.{div-le_self, div-add-mod, mod-lt}
use iicpc_summer_hackathon.Prelude.{
  ℕ, zero, suc, ◌+◌, ◌*◌, ◌/◌, ◌%◌, ◌≤◌, ◌<◌, min, String, ◌≡◌, ap, ◌∙◌, sym, subst, inl, inr, true,
  false, List, [], ◌∷◌, ◌++◌, some, arith, if◌then◌else◌, ltb, length, str_eq, All, All-map_of,
  Bool-cases, Option-cases, ◌==◌,
}
use iicpc_summer_hackathon.Prelude.Int.{pos, pos_part, add64}
use iicpc_summer_hackathon.Prelude.Dict.{Dict, lookup, insert, has_key, lookup-insert}
use iicpc_summer_hackathon.Orchestrator.State.{
  BenchmarkSession, WorkerCmd, RedisCommand, set_session, h_set, publish_event, publish_cmd,
  Orchestrator, offer,
}
use iicpc_summer_hackathon.Orchestrator.Sessions.{
  Dispatch, bots_for, send_to, send_shares, start_cmd, keys, dispatch_to_workers, update_session,
  mark_running,
}

abbrev pub max_int64 : ℕ
max_int64 = 9223372036854775807

-- The part of worker `i` as a number.
abbrev pub share : ℕ → ℕ → ℕ → ℕ
share n k i = if ltb i (n % k) then n / k + 1 else n / k

-- Every worker gets the quotient, or one more.
bots_for-share : (n k i : ℕ) → n < max_int64 → bots_for (pos n) k i ≡ pos (share n k i)
unfolding bots_for add64
bots_for-share n k i h = ground (arith, div-le_self n k)

total_share : ℕ → ℕ → ℕ → ℕ → ℕ
total_share n k i zero = 0
total_share n k i (suc m) = share n k i + total_share n k (i + 1) m

total_share_lem :
    (n k i m : ℕ) → total_share n k i m + min i (n % k) ≡ m * (n / k) + min (i + m) (n % k)
unfolding total_share
total_share_lem n k i zero = omega arith
total_share_lem n k i (suc m) = ground (arith, total_share_lem n k (i + 1) m)

total_share_all : (n k : ℕ) → 0 < k → total_share n k 0 k ≡ n
total_share_all n k h = omega (arith, total_share_lem n k 0 k, div-add-mod n k, mod-lt n h)

sum_cmds : List WorkerCmd → ℕ
sum_cmds [] = 0
sum_cmds (c ∷ cs) = pos_part c.bot_count + sum_cmds cs

sum_cmds-snoc :
    (cs : List WorkerCmd) (c : WorkerCmd)
    → sum_cmds (cs ++ c ∷ []) ≡ sum_cmds cs + pos_part c.bot_count
unfolding sum_cmds
sum_cmds-snoc [] c = omega arith
sum_cmds-snoc (d ∷ cs) c = omega (arith, sum_cmds-snoc cs c)

sum_chans : Dict (List WorkerCmd) → ℕ
sum_chans [] = 0
sum_chans ((k, cs) ∷ m) = sum_cmds cs + sum_chans m

sum_chans-insert :
    (k : String) (m : Dict (List WorkerCmd)) (old new : List WorkerCmd)
    → lookup k m ≡ some old
    → sum_chans (insert k new m) + sum_cmds old ≡ sum_chans m + sum_cmds new
unfolding sum_chans lookup insert
sum_chans-insert k [] old new e = cc
sum_chans-insert k ((j, cs) ∷ m) old new e = elim (Bool-cases (str_eq j k)) [
  | inl same ↦ ground arith
  | inr other ↦ ground (arith, sum_chans-insert k m old new)
]

module _ {F : Type 0} where
  abbrev cmd_bots : RedisCommand F → ℕ
  cmd_bots (publish_cmd ch c) = pos_part c.bot_count
  cmd_bots (set_session k s) = 0
  cmd_bots (h_set k fs) = 0
  cmd_bots (publish_event ch s) = 0

  sum_redis : List (RedisCommand F) → ℕ
  sum_redis [] = 0
  sum_redis (c ∷ cs) = cmd_bots c + sum_redis cs

  sum_redis-snoc :
      (cs : List (RedisCommand F)) (c : RedisCommand F)
      → sum_redis (cs ++ c ∷ []) ≡ sum_redis cs + cmd_bots c
  unfolding sum_redis
  sum_redis-snoc [] c = omega arith
  sum_redis-snoc (d ∷ cs) c = omega (arith, sum_redis-snoc cs c)

  -- The bots that the commands in the channels and those handed to Redis ask for.
  pub assigned : Orchestrator F → ℕ
  unfolding sum_cmds sum_chans sum_redis
  assigned o = sum_chans o.cmd_chans + sum_redis o.redis

  assigned-send_to :
      (wid : String) (c : WorkerCmd) (o : Orchestrator F) (ch : List WorkerCmd)
      → lookup wid o.cmd_chans ≡ some ch
      → assigned (send_to wid c o) ≡ assigned o + pos_part c.bot_count
  unfolding send_to offer assigned
  assigned-send_to wid c o ch e = ground (
    arith,
    sum_chans-insert wid o.cmd_chans ch (ch ++ c ∷ []) e,
    sum_cmds-snoc ch c,
    sum_redis-snoc o.redis (publish_cmd (str_append "worker:" wid) c),
  )

  has_chan-send_to :
      (wid : String) (c : WorkerCmd) (o : Orchestrator F) (k : String)
      → has_key k o.cmd_chans ≡ true
      → has_key k (send_to wid c o).cmd_chans ≡ true
  unfolding send_to offer
  has_chan-send_to wid c o k h = elim (Option-cases (lookup wid o.cmd_chans)) [
    | inl e ↦ ground arith
    | inr (ch, e) ↦ ground (arith, lookup-insert wid k (ch ++ c ∷ []) o.cmd_chans)
  ]

  -- Every worker has a command channel.
  abbrev pub AllHaveChan : List String → Orchestrator F → Type 0
  AllHaveChan wids o = All (λ wid. has_key wid o.cmd_chans ≡ true) wids

  assigned-send_shares :
      (n k : ℕ) (d : Dispatch) (i : ℕ) (wids : List String) (o : Orchestrator F)
      → n < max_int64
      → AllHaveChan wids o
      → assigned (send_shares (pos n) k (start_cmd d) i wids o)
        ≡ assigned o + total_share n k i (length wids)
  unfolding send_shares total_share
  assigned-send_shares n k d i [] o h a = omega arith
  assigned-send_shares n k d i (wid ∷ wids) o h a =
      let cmd = start_cmd d (bots_for (pos n) k i) in
      let rest =
        assigned-send_shares n k d (i + 1) wids (send_to wid cmd o) h
          (All-map_of _ _ (has_chan-send_to wid cmd o) wids a.1) in
      elim (Option-cases (lookup wid o.cmd_chans)) [
        | inl e ↦ absurd (ground arith)
        | inr (ch, e) ↦
            omega
              (arith, rest, assigned-send_to wid cmd o ch e, ap pos_part (bots_for-share n k i h))
      ]

  assigned-update_session :
      (f : BenchmarkSession F → BenchmarkSession F) (id : String) (o : Orchestrator F)
      → assigned (update_session f id o) ≡ assigned o
  unfolding assigned
  assigned-update_session f id o = ground arith

  -- Where there are workers and each has a command channel, a dispatch of n bots, n under 2^63 - 1,
  -- adds commands for exactly n bots, in the channels and, for full channels, in Redis.
  pub dispatch_assigns :
      (now n : ℕ) (d : Dispatch) (o : Orchestrator F)
      → d.bot_count ≡ pos n
      → n < max_int64
      → 0 < length (keys o.workers)
      → AllHaveChan (keys o.workers) o
      → assigned (dispatch_to_workers now d o).0 ≡ assigned o + n
  unfolding dispatch_to_workers
  dispatch_assigns now n d o e h w a =
      let k = length (keys o.workers) in
      let busy : (k == 0) ≡ false = ground arith in
      rw busy (
        assigned-update_session (mark_running now d.bot_count) d.session_id _
        ∙ subst
            (λ b. assigned (send_shares b k (start_cmd d) 0 (keys o.workers) o) ≡ assigned o + n)
            (sym e)
            (omega
              (arith, assigned-send_shares n k d 0 (keys o.workers) o h a, total_share_all n k w)))

-- Of a dispatch of n bots, n under 2^63 - 1, to k workers, an earlier worker's share is at least a
-- later one's, and at most one more.
pub bots_for_fair :
    (n k i j : ℕ)
    → n < max_int64
    → i ≤ j
    → (a : ℕ) × (b : ℕ) × (bots_for (pos n) k i ≡ pos a)
      × (bots_for (pos n) k j ≡ pos b)
      × (b ≤ a)
      × (a ≤ b + 1)
bots_for_fair n k i j h le = (
  share n k i,
  share n k j,
  bots_for-share n k i h,
  bots_for-share n k j h,
  ground arith,
  ground arith,
)
