-- ===== src/BotWorker/Worker/Mix.antt =====
-- Which bots a worker starts, and what it counts of them.
use iicpc_summer_hackathon.Prelude.{
  ℕ, zero, suc, ◌+◌, ◌*◌, ◌%◌, String, ◌≡◌, refl, ap, ◌∙◌, sym, subst, Bool, true, false, List, [],
  ◌∷◌, ◌++◌, some, append-nil, append_assoc, if◌then◌else◌, arith, length, length-append,
}
use iicpc_summer_hackathon.Prelude.Int.{pos, add64, eqb_ℤ}
use iicpc_summer_hackathon.BotWorker.Bot.{
  ParticipantType, market_maker, momentum_trader, iceberg_bot, sniper_bot, retail_flow, Bot,
  new_bot,
}
use iicpc_summer_hackathon.BotWorker.Worker.{
  Worker, Spawn, ptype_at, spawn_bot, spawn_from, spawn_bots, sum_sent, total_orders_sent,
  active_bot_count, Poller, cancel_session, on_start, on_spawn,
}
use iicpc_summer_hackathon.Orchestrator.State.{WorkerCmd}

abbrev pub same_ptype : ParticipantType → ParticipantType → Bool
same_ptype market_maker market_maker = true
same_ptype momentum_trader momentum_trader = true
same_ptype iceberg_bot iceberg_bot = true
same_ptype sniper_bot sniper_bot = true
same_ptype retail_flow retail_flow = true
same_ptype p q = false

-- The bots of one kind of participant.
abbrev pub count : ParticipantType → List Bot → ℕ
count p [] = 0
count p (b ∷ bs) = let rest = count p bs in if same_ptype b.ptype p then suc rest else rest

-- The bots of a kind among ten.
abbrev pub per_ten : ParticipantType → ℕ
per_ten market_maker = 2
per_ten momentum_trader = 3
per_ten iceberg_bot = 1
per_ten sniper_bot = 1
per_ten retail_flow = 3

count-append :
    (p : ParticipantType) (xs ys : List Bot) → count p (xs ++ ys) ≡ count p xs + count p ys
count-append p [] ys = omega arith
count-append p (x ∷ xs) ys = ground (arith, count-append p xs ys)

abbrev weight : ParticipantType → ℕ → ℕ
weight p r = if same_ptype (ptype_at r) p then 1 else 0

weights-per_ten :
    (p : ParticipantType)
    → weight p 0
        + (weight p 1
            + (weight p 2
                + (weight p 3
                    + (weight p 4
                        + (weight p 5 + (weight p 6 + (weight p 7 + (weight p 8 + weight p 9))))))))
      ≡ per_ten p
weights-per_ten market_maker = refl
weights-per_ten momentum_trader = refl
weights-per_ten iceberg_bot = refl
weights-per_ten sniper_bot = refl
weights-per_ten retail_flow = refl

module _ (bot_id : String → ℕ → String) where
  -- The bots of a call of SpawnBots, from bot `i` on.
  bots_from : String → Spawn → ℕ → ℕ → List Bot
  bots_from id s i zero = []
  bots_from id s i (suc n) =
      new_bot (bot_id id i) (ptype_at (i % 10)) s.cmd.session_id s.cmd.target_url
        s.cmd.endpoint_type
      ∷ bots_from id s (suc i) n

  active_bots-spawn_from :
      (s : Spawn) (i n : ℕ) (w : Worker)
      → (spawn_from bot_id s i n w).active_bots ≡ w.active_bots ++ bots_from w.id s i n
  unfolding spawn_from bots_from
  active_bots-spawn_from s i zero w = sym (append-nil w.active_bots)
  active_bots-spawn_from s i (suc n) w =
      active_bots-spawn_from s (suc i) n (spawn_bot bot_id s i w)
      ∙ append_assoc w.active_bots _ (bots_from w.id s (suc i) n)

  one_more :
      (p : ParticipantType) (id : String) (s : Spawn) (i n r : ℕ)
      → i % 10 ≡ r
      → count p (bots_from id s i (suc n)) ≡ weight p r + count p (bots_from id s (suc i) n)
  unfolding bots_from
  one_more p id s i n r e =
      subst
        (λ q.
          count p (bots_from id s i (suc n))
          ≡ (if same_ptype (ptype_at q) p then 1 else 0) + count p (bots_from id s (suc i) n))
        e (ground arith)

  ten_more :
      (p : ParticipantType) (id : String) (s : Spawn) (i k : ℕ)
      → i % 10 ≡ 0
      → count p (bots_from id s i (suc (suc (suc (suc (suc (suc (suc (suc (suc (suc k)))))))))))
        ≡ per_ten p
          + count p (bots_from id s (suc (suc (suc (suc (suc (suc (suc (suc (suc (suc i)))))))))) k)
  ten_more p id s i k e = omega (
    arith,
    weights-per_ten p,
    one_more p id s i (suc (suc (suc (suc (suc (suc (suc (suc (suc k))))))))) 0 (omega (arith, e)),
    one_more p id s (suc i) (suc (suc (suc (suc (suc (suc (suc (suc k)))))))) 1 (omega (arith, e)),
    one_more p id s (suc (suc i)) (suc (suc (suc (suc (suc (suc (suc k))))))) 2 (omega (arith, e)),
    one_more p id s (suc (suc (suc i))) (suc (suc (suc (suc (suc (suc k)))))) 3 (omega (arith, e)),
    one_more p id s (suc (suc (suc (suc i)))) (suc (suc (suc (suc (suc k))))) 4 (omega (arith, e)),
    one_more p id s (suc (suc (suc (suc (suc i))))) (suc (suc (suc (suc k)))) 5 (omega (arith, e)),
    one_more p id s (suc (suc (suc (suc (suc (suc i)))))) (suc (suc (suc k))) 6 (omega (arith, e)),
    one_more p id s (suc (suc (suc (suc (suc (suc (suc i))))))) (suc (suc k)) 7 (omega (arith, e)),
    one_more p id s (suc (suc (suc (suc (suc (suc (suc (suc i)))))))) (suc k) 8 (omega (arith, e)),
    one_more p id s (suc (suc (suc (suc (suc (suc (suc (suc (suc i))))))))) k 9 (omega (arith, e)),
  )

  tens :
      (p : ParticipantType) (id : String) (s : Spawn) (i k : ℕ)
      → i % 10 ≡ 0
      → count p (bots_from id s i (k * 10)) ≡ k * per_ten p
  unfolding bots_from
  tens p id s i zero e = omega arith
  tens p id s i (suc k) e =
      let ten : suc (suc (suc (suc (suc (suc (suc (suc (suc (suc (k * 10)))))))))) ≡ suc k * 10 =
        omega arith in
      subst (λ n. count p (bots_from id s i n) ≡ suc k * per_ten p) ten
        (ten_more p id s i (k * 10) e
          ∙ ap (λ n. per_ten p + n)
              (tens p id s (suc (suc (suc (suc (suc (suc (suc (suc (suc (suc i)))))))))) k
                (omega (arith, e)))
          ∙ omega arith)

  -- A call of SpawnBots for 10 k bots adds 2 k market makers, 3 k momentum traders, k iceberg bots,
  -- k snipers and 3 k retail bots to the worker's bots.
  pub spawn_bots_mix :
      (s : Spawn) (w : Worker) (k : ℕ) (p : ParticipantType)
      → s.count ≡ pos (k * 10)
      → count p (spawn_bots bot_id s w).active_bots ≡ count p w.active_bots + k * per_ten p
  unfolding spawn_bots
  spawn_bots_mix s w k p e =
      let same : spawn_bots bot_id s w ≡ spawn_from bot_id s 0 (k * 10) w =
        rw (e, spawn_bots) refl in
      ap (λ v. count p v.active_bots) same
      ∙ ap (count p) (active_bots-spawn_from s 0 (k * 10) w)
      ∙ count-append p w.active_bots (bots_from w.id s 0 (k * 10))
      ∙ ap (λ n. count p w.active_bots + n) (tens p w.id s 0 k (omega arith))

  sum_sent-bots_from : (id : String) (s : Spawn) (i n : ℕ) → sum_sent (bots_from id s i n) ≡ pos 0
  unfolding bots_from sum_sent add64
  sum_sent-bots_from id s i zero = refl
  sum_sent-bots_from id s i (suc n) = ap (add64 (pos 0)) (sum_sent-bots_from id s (suc i) n)

  sum_sent-append_new :
      (bs : List Bot) (id : String) (s : Spawn) (i n : ℕ)
      → sum_sent (bs ++ bots_from id s i n) ≡ sum_sent bs
  unfolding sum_sent
  sum_sent-append_new [] id s i n = sum_sent-bots_from id s i n
  sum_sent-append_new (b ∷ bs) id s i n = ap (add64 b.orders_sent) (sum_sent-append_new bs id s i n)

  length-bots_from : (id : String) (s : Spawn) (i n : ℕ) → length (bots_from id s i n) ≡ n
  unfolding bots_from
  length-bots_from id s i zero = refl
  length-bots_from id s i (suc n) = ap suc (length-bots_from id s (suc i) n)

  spawned :
      (s : Spawn) (w : Worker) (n : ℕ)
      → s.count ≡ pos n
      → (active_bot_count (spawn_bots bot_id s w) ≡ active_bot_count w + n)
        × (total_orders_sent (spawn_bots bot_id s w) ≡ total_orders_sent w)
  unfolding spawn_bots bots_from
  spawned s w n e =
      let same : (spawn_bots bot_id s w).active_bots ≡ w.active_bots ++ bots_from w.id s 0 n =
        rw (e, spawn_bots) (active_bots-spawn_from s 0 n w) in
      (
        ap length same
            ∙ length-append w.active_bots _
            ∙ ap (λ m. length w.active_bots + m) (length-bots_from w.id s 0 n),
        ap sum_sent same ∙ sum_sent-append_new w.active_bots w.id s 0 n,
      )

  active_bots-cancel_session : (p : Poller) → (cancel_session p).active_bots ≡ p.worker.active_bots
  active_bots-cancel_session p = ground arith

  -- A START that comes without a STOP leaves the bots of the session before in the worker's list: for
  -- n + 1 bots, the worker then counts n + 1 bots more than before, and reports for the new session
  -- all the orders that the old bots sent.
  pub restart_keeps_bots :
      (cmd : WorkerCmd) (p : Poller) (n : ℕ)
      → cmd.bot_count ≡ pos (suc n)
      → p.spawns ≡ []
      → (active_bot_count (on_spawn bot_id 0 (on_start cmd p)).worker
          ≡ active_bot_count p.worker + suc n)
        × (total_orders_sent (on_spawn bot_id 0 (on_start cmd p)).worker
            ≡ total_orders_sent p.worker)
        × ((on_spawn bot_id 0 (on_start cmd p)).current_session_id ≡ cmd.session_id)
  unfolding on_start on_spawn
  restart_keeps_bots cmd p n e q =
      let w : Worker = record (cancel_session p) { contexts = suc (cancel_session p).contexts } in
      let s : Spawn = record {
        session_context = (cancel_session p).contexts;
        cmd = cmd;
        count = if eqb_ℤ cmd.bot_count (pos 0) then pos 8 else cmd.bot_count;
      } in
      let next : Poller = record {
        worker = spawn_bots bot_id s w;
        current_session_id = cmd.session_id;
        session = some (cancel_session p).contexts;
        spawns = [];
      } in
      let eq : on_spawn bot_id 0 (on_start cmd p) ≡ next =
        ap
          (λ waiting. on_spawn bot_id 0 (record {
            worker = w;
            current_session_id = cmd.session_id;
            session = some (cancel_session p).contexts;
            spawns = waiting ++ s ∷ [];
          }))
          q in
      let asked : s.count ≡ pos (suc n) =
        subst (λ b. (if eqb_ℤ b (pos 0) then pos 8 else b) ≡ pos (suc n)) (sym e) (ground arith) in
      let (c, t) = spawned s w (suc n) asked in
      let old : w.active_bots ≡ p.worker.active_bots = active_bots-cancel_session p in
      (
        ap (λ r. active_bot_count r.worker) eq ∙ c ∙ ap (λ bs. length bs + suc n) old,
        ap (λ r. total_orders_sent r.worker) eq ∙ t ∙ ap sum_sent old,
        ap (λ r. r.current_session_id) eq,
      )
