-- ===== src/BotWorker/Worker.antt =====
-- The worker and its poller, of services/bot-worker/main.go: what START and STOP do to the bots. A
-- context is a number, in the order in which contexts are made; a goroutine runs until its own
-- context or its session's is cancelled.
-- Ids are taken to have at least the 8 characters that the code's names and log lines print of them.
use iicpc_summer_hackathon.Prelude.{
  ℕ, zero, suc, ◌+◌, ◌%◌, String, ◌≡◌, Bool, false, List, [], ◌∷◌, ◌++◌, Option, none, some, map,
  if◌then◌else◌, str_eq, length, ◌==◌, ltb, not, ◌||◌,
}
use iicpc_summer_hackathon.Prelude.Int.{ℤ, pos, negsuc, add64, eqb_ℤ}
use iicpc_summer_hackathon.Prelude.Dict.{Dict, insert}
use iicpc_summer_hackathon.Orchestrator.State.{WorkerCmd}
use iicpc_summer_hackathon.BotWorker.Bot.{
  ParticipantType, market_maker, momentum_trader, iceberg_bot, sniper_bot, retail_flow, Bot,
  new_bot,
}
pub mod Mix
pub mod Polling
pub mod Stopping

-- A bot's goroutine: the bot's id, the goroutine's context, and its session's.
pub record Goroutine : Type 0 where
  pub bot_id : String
  pub context : ℕ
  pub session_context : ℕ

pub record Worker : Type 0 where
  pub id : String
  pub active_bots : List Bot
  pub cancel_funcs : Dict ℕ
  pub goroutines : List Goroutine
  pub contexts : ℕ
  pub cancelled : List ℕ

abbrev pub new_worker : String → Worker
new_worker id = record {
  id = id;
  active_bots = [];
  cancel_funcs = [];
  goroutines = [];
  contexts = 0;
  cancelled = [];
}

-- The participants that the bots take in turn; ptypes[i % len(ptypes)].
abbrev pub ptype_at : ℕ → ParticipantType
ptype_at i =
    if ltb i 2
    then market_maker
    else if ltb i 5
    then momentum_trader
    else if i == 5
    then iceberg_bot
    else if i == 6
    then sniper_bot
    else retail_flow

abbrev pub mem : ℕ → List ℕ → Bool
mem n [] = false
mem n (m ∷ ms) = n == m || mem n ms

abbrev pub is_live : List ℕ → Goroutine → Bool
is_live cancelled g = not (mem g.context cancelled || mem g.session_context cancelled)

-- A call of SpawnBots that runs as a goroutine of its own.
pub record Spawn : Type 0 where
  pub session_context : ℕ
  pub cmd : WorkerCmd
  pub count : ℤ

pub record Poller : Type 0 where
  pub worker : Worker
  pub current_session_id : String
  pub session : Option ℕ
  pub spawns : List Spawn

abbrev pub new_poller : String → Poller
new_poller id = record {
  worker = new_worker id;
  current_session_id = "";
  session = none;
  spawns = [];
}

-- `bot_id` is fmt.Sprintf's answer for the worker's id and a number.
module _ (bot_id : String → ℕ → String) where
  -- The round of the loop of SpawnBots for bot `i`.
  abbrev pub spawn_bot : Spawn → ℕ → Worker → Worker
  spawn_bot s i w =
      let id = bot_id w.id i in
      record w {
        active_bots =
            w.active_bots
            ++ new_bot id (ptype_at (i % 10)) s.cmd.session_id s.cmd.target_url s.cmd.endpoint_type
              ∷ [];
        cancel_funcs = insert id w.contexts w.cancel_funcs;
        goroutines =
            record { bot_id = id; context = w.contexts; session_context = s.session_context }
            ∷ w.goroutines;
        contexts = suc w.contexts;
      }

  unfoldable pub spawn_from : Spawn → ℕ → ℕ → Worker → Worker
  spawn_from s i zero w = w
  spawn_from s i (suc n) w = spawn_from s (suc i) n (spawn_bot s i w)

  -- A negative count starts no bot.
  unfoldable pub spawn_bots : Spawn → Worker → Worker
  unfolding spawn_from
  spawn_bots s w = elim s.count as (λ _. Worker) [ pos n ↦ spawn_from s 0 n w | negsuc n ↦ w ]

unfoldable pub stop_bots : Worker → Worker
stop_bots w = record w {
  cancelled = map (λ e. e.1) w.cancel_funcs ++ w.cancelled;
  active_bots = [];
  cancel_funcs = [];
}

unfoldable pub sum_sent : List Bot → ℤ
sum_sent [] = pos 0
sum_sent (b ∷ bs) = add64 b.orders_sent (sum_sent bs)

abbrev pub total_orders_sent : Worker → ℤ
total_orders_sent w = sum_sent w.active_bots

abbrev pub active_bot_count : Worker → ℕ
active_bot_count w = length w.active_bots

-- The end of the current session's context, if there is one.
abbrev pub cancel_session : Poller → Worker
cancel_session p = elim p.session [
  | none ↦ p.worker
  | some c ↦ record (p.worker) { cancelled = c ∷ p.worker.cancelled }
]

unfoldable pub on_start : WorkerCmd → Poller → Poller
on_start cmd p =
    let w = cancel_session p in
    record {
      worker = record w { contexts = suc w.contexts };
      current_session_id = cmd.session_id;
      session = some w.contexts;
      spawns =
          p.spawns
          ++ record {
            session_context = w.contexts;
            cmd = cmd;
            count = if eqb_ℤ cmd.bot_count (pos 0) then pos 8 else cmd.bot_count;
          }
            ∷ [];
    }

unfoldable pub on_stop : Poller → Poller
unfolding stop_bots
on_stop p = record {
  worker = stop_bots (cancel_session p);
  current_session_id = "";
  session = none;
  spawns = p.spawns;
}

-- The switch of Poll on a command.
unfoldable pub on_command : WorkerCmd → Poller → Poller
unfolding on_start on_stop
on_command cmd p =
    if str_eq cmd.command "START"
    then on_start cmd p
    else if str_eq cmd.command "STOP"
    then on_stop p
    else p

-- The list without its element at a place, and that element.
abbrev pub take_at {ℓ} : {A : Type ℓ} → ℕ → List A → Option (A × List A)
take_at i [] = none
take_at zero (x ∷ xs) = some (x, xs)
take_at (suc i) (x ∷ xs) = elim (take_at i xs) [ none ↦ none | some (y, ys) ↦ some (y, x ∷ ys) ]

-- What happens to a poller: a command, or the waiting call of SpawnBots at a place gets the lock.
pub data Event : Type 0 where
  commands : WorkerCmd → Event
  spawns_at : ℕ → Event

module _ (bot_id : String → ℕ → String) where
  unfoldable pub on_spawn : ℕ → Poller → Poller
  on_spawn i p = elim (take_at i p.spawns) [
    | none ↦ p
    | some (s, rest) ↦ record p { worker = spawn_bots bot_id s p.worker; spawns = rest }
  ]

  unfoldable pub on_event : Event → Poller → Poller
  on_event (commands cmd) p = on_command cmd p
  on_event (spawns_at i) p = on_spawn i p

  unfoldable pub run_events : List Event → Poller → Poller
  run_events [] p = p
  run_events (e ∷ es) p = run_events es (on_event e p)
