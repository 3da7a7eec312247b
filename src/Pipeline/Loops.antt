-- ===== src/Pipeline/Loops.antt =====
-- The events of a bot's run, whichever of its loops it is in.
use iicpc_summer_hackathon.Prelude.{
  String, ◌≡◌, refl, ap, ◌∙◌, inl, inr, Bool, true, false, List, [], ◌∷◌, All, All-append,
  All-map_of, arith, length, str_eq, Bool-cases, Option-cases,
}
use iicpc_summer_hackathon.Prelude.Int.{ℤ, pos_part}
use iicpc_summer_hackathon.Prelude.Float.{Float64}
use iicpc_summer_hackathon.Prelude.Dict.{lookup}
use iicpc_summer_hackathon.Telemetry.Event.{TelemetryEvent}
use iicpc_summer_hackathon.BotWorker.Order.{Order, OrderResponse}
use iicpc_summer_hackathon.BotWorker.Exchange.{
  BotLoop, new_loop, Input, acks, ticks, cancelled, Round, on_ack, on_tick, ws_step, run_ws,
  run_rest,
}
use iicpc_summer_hackathon.BotWorker.Exchange.Accounts.{Says, run_ws_accounts, run_rest_accounts}
use iicpc_summer_hackathon.BotWorker.Exchange.Wire.{run}
use iicpc_summer_hackathon.Pipeline.{BotRun, loop_of, settled, IsShort}

module _ {F : Type 0} ⦃fl : Float64 F⦄ where
  abbrev pub IsOf : String → TelemetryEvent F → Type 0
  IsOf session_id e = e.session_id ≡ session_id

  on_ack-IsOf :
      (session_id : String) (ack : OrderResponse F) (now : ℤ) (l : BotLoop F)
      → All (IsOf session_id) l.emitted
      → All (IsOf session_id) (on_ack session_id ack now l).emitted
  unfolding on_ack
  on_ack-IsOf session_id ack now l h = elim (Option-cases (lookup ack.order_id l.pending)) [
    | inl e ↦ rw (e, on_ack) h
    | inr (p, e) ↦ rw (e, on_ack) (All-append (IsOf session_id) l.emitted _ h (refl, tt))
  ]

  on_tick-IsOf :
      (session_id : String) (o : Order F) (t_send : ℤ) (is_written : Bool) (l : BotLoop F)
      → All (IsOf session_id) l.emitted
      → All (IsOf session_id) (on_tick o t_send is_written l).emitted
  unfolding on_tick
  on_tick-IsOf session_id o t_send true l h = h
  on_tick-IsOf session_id o t_send false l h = h

  ws_step-IsOf :
      (session_id : String) (i : Input F) (l : BotLoop F)
      → All (IsOf session_id) l.emitted
      → All (IsOf session_id) (ws_step session_id i l).emitted
  unfolding ws_step
  ws_step-IsOf session_id (acks ack now) l h = on_ack-IsOf session_id ack now l h
  ws_step-IsOf session_id (ticks o t_send is_written) l h =
      on_tick-IsOf session_id o t_send is_written l h
  ws_step-IsOf session_id cancelled l h = h

  run_ws-IsOf :
      (session_id : String) (is : List (Input F)) (l : BotLoop F)
      → All (IsOf session_id) l.emitted
      → All (IsOf session_id) (run_ws session_id is l).emitted
  unfolding run_ws
  run_ws-IsOf session_id [] l h = h
  run_ws-IsOf session_id (i ∷ is) l h = elim (Bool-cases l.is_running) [
    | inl on ↦
        simp on (run_ws-IsOf session_id is (ws_step session_id i l) (ws_step-IsOf session_id i l h))
    | inr off ↦ simp off h
  ]

  pending-run_rest :
      (session_id : String) (rs : List (Round F)) (l : BotLoop F)
      → (run_rest session_id rs l).pending ≡ l.pending
  unfolding run_rest
  pending-run_rest session_id [] l = refl
  pending-run_rest session_id (r ∷ rs) l = pending-run_rest session_id rs _ ∙ ground arith

  -- The events are the bot's session's, and as many as its orders that do not wait.
  abbrev pub Accounted : String → BotLoop F → Type 0
  Accounted session_id l = (settled l ≡ length l.emitted) × All (IsOf session_id) l.emitted

  run_ws-Accounted :
      (b : BotRun F)
      → IsShort b
      → Accounted b.bot.session_id (run_ws b.bot.session_id b.inputs new_loop)
  run_ws-Accounted b short =
      let (sent, unique) = run_ws_accounts b.bot.session_id b.inputs short.new short.inputs in
      (omega (arith, ap pos_part sent), run_ws-IsOf b.bot.session_id b.inputs new_loop tt)

  run_rest-Accounted :
      (b : BotRun F)
      → IsShort b
      → Accounted b.bot.session_id (run_rest b.bot.session_id b.rounds new_loop)
  run_rest-Accounted b short =
      let (sent, says) = run_rest_accounts b.bot.session_id b.rounds short.rounds in
      let none_waits = ap length (pending-run_rest b.bot.session_id b.rounds new_loop) in
      (
        omega (arith, ap pos_part sent, none_waits),
        All-map_of (Says b.bot.session_id) (IsOf b.bot.session_id) (λ e h. h.0) _ says,
      )

  pub loop_of-Accounted : (b : BotRun F) → IsShort b → Accounted b.bot.session_id (loop_of b)
  unfolding run
  loop_of-Accounted b short = elim (Bool-cases (str_eq b.bot.endpoint_type "WebSocket")) [
    | inl socket ↦ elim (Bool-cases b.dialled) [
      | inl made ↦ rw (socket, made) (run_ws-Accounted b short)
      | inr failed ↦ rw (socket, failed) (run_rest-Accounted b short)
    ]
    | inr rest ↦ rw rest (run_rest-Accounted b short)
  ]
