-- ===== src/BotWorker/Worker/Stopping.antt =====
-- The contexts of the bots' goroutines, over commands and calls of SpawnBots.
use iicpc_summer_hackathon.Prelude.{
  ℕ, zero, suc, String, ◌≡◌, refl, sym, subst, ◌⊎◌, inl, inr, true, false, List, [], ◌∷◌, ◌++◌,
  Option, none, some, arith, str_eq, Bool-cases, Option-cases, All, All-append, All-map_of,
}
use iicpc_summer_hackathon.Prelude.Int.{ℤ, pos, negsuc}
use iicpc_summer_hackathon.Orchestrator.State.{WorkerCmd}
use iicpc_summer_hackathon.BotWorker.Worker.{
  Goroutine, Worker, Spawn, Poller, new_poller, mem, is_live, spawn_bot, spawn_from, spawn_bots,
  stop_bots, cancel_session, on_start, on_stop, on_command, take_at, Event, commands, spawns_at,
  on_spawn, on_event, run_events,
}

mem-append_right : (n : ℕ) (xs ys : List ℕ) → mem n ys ≡ true → mem n (xs ++ ys) ≡ true
mem-append_right n [] ys h = h
mem-append_right n (x ∷ xs) ys h = ground (arith, mem-append_right n xs ys h)

-- A session's context is cancelled, or it is the current one's.
abbrev IsTied : List ℕ → Option ℕ → ℕ → Type 0
IsTied cancelled session c = (mem c cancelled ≡ true) ⊎ (session ≡ some c)

abbrev WorkerTied : Option ℕ → Worker → Type 0
WorkerTied session w = All (λ g. IsTied w.cancelled session g.session_context) w.goroutines

record Tied (p : Poller) : Type 0 where
  bots : WorkerTied p.session p.worker
  waiting : All (λ s. IsTied p.worker.cancelled p.session s.session_context) p.spawns

-- The end of the current session's context leaves no context that is not cancelled.
cancel_session-tied :
    (p : Poller) (c : ℕ)
    → IsTied p.worker.cancelled p.session c
    → mem c (cancel_session p).cancelled ≡ true
cancel_session-tied p c t = cases p.session t
  where
    cases :
        (session : Option ℕ)
        → IsTied p.worker.cancelled session c
        → mem c (cancel_session (record p { session = session })).cancelled ≡ true
    cases none (inl m) = m
    cases none (inr e) = absurd (ground (arith, e))
    cases (some d) (inl m) = ground (arith, m)
    cases (some d) (inr e) = ground (arith, e)

goroutines-cancel_session : (p : Poller) → (cancel_session p).goroutines ≡ p.worker.goroutines
goroutines-cancel_session p = ground arith

on_start-Tied : (cmd : WorkerCmd) (p : Poller) → Tied p → Tied (on_start cmd p)
unfolding on_start
on_start-Tied cmd p t = record {
  bots =
      subst
        (λ gs.
          All
            (λ g.
              IsTied (cancel_session p).cancelled (some (cancel_session p).contexts)
                g.session_context)
            gs)
        (sym (goroutines-cancel_session p))
        (All-map_of _ _ (λ g h. inl (cancel_session-tied p g.session_context h)) p.worker.goroutines
          t.bots);
  waiting =
      All-append _ p.spawns _
        (All-map_of _ _ (λ s h. inl (cancel_session-tied p s.session_context h)) p.spawns t.waiting)
        (inr refl, tt);
}

on_stop-Tied : (p : Poller) → Tied p → Tied (on_stop p)
unfolding on_stop stop_bots
on_stop-Tied p t = record {
  bots =
      subst
        (λ gs. All (λ g. IsTied (stop_bots (cancel_session p)).cancelled none g.session_context) gs)
        (sym (goroutines-cancel_session p))
        (All-map_of _ _ (λ g h. ended g.session_context h) p.worker.goroutines t.bots);
  waiting = All-map_of _ _ (λ s h. ended s.session_context h) p.spawns t.waiting;
}
  where
    ended :
        (c : ℕ)
        → IsTied p.worker.cancelled p.session c
        → IsTied (stop_bots (cancel_session p)).cancelled none c
    ended c h = inl (mem-append_right c _ _ (cancel_session-tied p c h))

on_command-Tied : (cmd : WorkerCmd) (p : Poller) → Tied p → Tied (on_command cmd p)
unfolding on_command
on_command-Tied cmd p t = elim (Bool-cases (str_eq cmd.command "START")) [
  | inl e ↦ rw e (on_start-Tied cmd p t)
  | inr ne ↦ elim (Bool-cases (str_eq cmd.command "STOP")) [
    | inl e ↦ rw (ne, e) (on_stop-Tied p t)
    | inr ne' ↦ rw (ne, ne') t
  ]
]

module _ {κ ℓ} {A : Type ℓ} (P : A → Type κ) where
  abbrev AllTaken : Option (A × List A) → Type κ
  AllTaken none = Unit
  AllTaken (some (y, ys)) = P y × All P ys

  put_back :
      (x : A) (r : Option (A × List A))
      → P x
      → AllTaken r
      → AllTaken
          (elim r as (λ _. Option (A × List A)) [ none ↦ none | some (y, ys) ↦ some (y, x ∷ ys) ])
  put_back x none h t = tt
  put_back x (some (y, ys)) h t = (t.0, (h, t.1))

  take_at-All : (i : ℕ) (xs : List A) → All P xs → AllTaken (take_at i xs)
  take_at-All i [] h = tt
  take_at-All zero (x ∷ xs) h = h
  take_at-All (suc i) (x ∷ xs) h = put_back x (take_at i xs) h.0 (take_at-All i xs h.1)

module _ (bot_id : String → ℕ → String) where
  spawn_from-Tied :
      (session : Option ℕ) (s : Spawn) (i n : ℕ) (w : Worker)
      → IsTied w.cancelled session s.session_context
      → WorkerTied session w
      → WorkerTied session (spawn_from bot_id s i n w)
        × ((spawn_from bot_id s i n w).cancelled ≡ w.cancelled)
  unfolding spawn_from
  spawn_from-Tied session s i zero w h t = (t, refl)
  spawn_from-Tied session s i (suc n) w h t =
      spawn_from-Tied session s (suc i) n (spawn_bot bot_id s i w) h (h, t)

  spawn_bots-Tied :
      (session : Option ℕ) (s : Spawn) (w : Worker)
      → IsTied w.cancelled session s.session_context
      → WorkerTied session w
      → WorkerTied session (spawn_bots bot_id s w)
        × ((spawn_bots bot_id s w).cancelled ≡ w.cancelled)
  unfolding spawn_bots
  spawn_bots-Tied session s w h t = cases s.count
    where
      cases :
          (count : ℤ)
          → WorkerTied session (spawn_bots bot_id (record s { count = count }) w)
            × ((spawn_bots bot_id (record s { count = count }) w).cancelled ≡ w.cancelled)
      cases (pos n) = spawn_from-Tied session (record s { count = pos n }) 0 n w h t
      cases (negsuc n) = (t, refl)

  on_spawn-Tied : (i : ℕ) (p : Poller) → Tied p → Tied (on_spawn bot_id i p)
  unfolding on_spawn
  on_spawn-Tied i p t = elim (Option-cases (take_at i p.spawns)) [
    | inl e ↦ rw (e, on_spawn) t
    | inr ((s, rest), e) ↦
        let (h, hs) = subst (AllTaken Waits) e (take_at-All Waits i p.spawns t.waiting) in
        let (bt, same) = spawn_bots-Tied p.session s p.worker h t.bots in
        rw (e, on_spawn)
          (record {
            bots = bt;
            waiting =
                subst (λ cs. All (λ s. IsTied cs p.session s.session_context) rest) (sym same) hs;
          })
  ]
    where
      Waits : Spawn → Type 0
      Waits s = IsTied p.worker.cancelled p.session s.session_context

  run_events-Tied : (es : List Event) (p : Poller) → Tied p → Tied (run_events bot_id es p)
  unfolding run_events on_event
  run_events-Tied [] p t = t
  run_events-Tied (commands cmd ∷ es) p t = run_events-Tied es _ (on_command-Tied cmd p t)
  run_events-Tied (spawns_at i ∷ es) p t = run_events-Tied es _ (on_spawn-Tied i p t)

  -- Whatever commands have come, and whenever their calls of SpawnBots got to run, each bot that
  -- the worker ever started is cancelled where no session is current, as after a STOP.
  pub idle_none_live :
      (id : String) (es : List Event)
      → (run_events bot_id es (new_poller id)).session ≡ none
      → All
          (λ g. is_live (run_events bot_id es (new_poller id)).worker.cancelled g ≡ false)
          (run_events bot_id es (new_poller id)).worker.goroutines
  idle_none_live id es e =
      let p = run_events bot_id es (new_poller id) in
      let t = run_events-Tied es (new_poller id) (record { bots = tt; waiting = tt }) in
      All-map_of _ _ (λ g h. dead g h) p.worker.goroutines t.bots
    where
      dead :
          (g : Goroutine)
          → IsTied
              (run_events bot_id es (new_poller id)).worker.cancelled
              (run_events bot_id es (new_poller id)).session
              g.session_context
          → is_live (run_events bot_id es (new_poller id)).worker.cancelled g ≡ false
      dead g (inl m) = ground (arith, m)
      dead g (inr q) = absurd (ground (arith, q, e))
