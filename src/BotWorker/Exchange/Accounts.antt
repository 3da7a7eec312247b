-- ===== src/BotWorker/Exchange/Accounts.antt =====
-- The counts of a bot's loops: orders sent, orders that wait, events handed on.
use iicpc_summer_hackathon.Prelude.{
  ℕ, ◌+◌, ◌≤◌, ◌<◌, String, ◌≡◌, ◌≢◌, refl, ap, ◌∙◌, sym, subst, inl, inr, Bool, true, false, List,
  [], ◌∷◌, Option, none, some, if◌then◌else◌, arith, str_eq, eq_iff, Bool-cases, Option-cases,
  length, length-append, All, All-append,
}
use iicpc_summer_hackathon.Prelude.Int.{ℤ, pos, add64}
use iicpc_summer_hackathon.Prelude.Float.{Float64}
use iicpc_summer_hackathon.Prelude.Dict.{
  Dict, lookup, insert, delete, IsMap, IsMap-insert, IsMap-delete,
}
use iicpc_summer_hackathon.Telemetry.Event.{TelemetryEvent}
use iicpc_summer_hackathon.BotWorker.Order.{Order, OrderResponse}
use iicpc_summer_hackathon.BotWorker.Exchange.{
  BotLoop, new_loop, Input, acks, ticks, cancelled, Round, emit, on_ack, on_tick, ws_step, run_ws,
  rest_event, run_rest,
}

module _ {ℓ} {V : Type ℓ} where
  length-insert_new :
      (k : String) (v : V) (m : Dict V) → lookup k m ≡ none → length (insert k v m) ≡ length m + 1
  unfolding lookup insert
  length-insert_new k v [] e = omega arith
  length-insert_new k v ((j, w) ∷ m) e = ground (arith, length-insert_new k v m)

  delete_absent : (k : String) (m : Dict V) → lookup k m ≡ none → delete k m ≡ m
  unfolding lookup delete
  delete_absent k [] e = refl
  delete_absent k ((j, w) ∷ m) e = ground (arith, delete_absent k m)

  length-delete :
      (k : String) (v : V) (m : Dict V)
      → IsMap m
      → lookup k m ≡ some v
      → length (delete k m) + 1 ≡ length m
  unfolding lookup delete
  length-delete k v [] h e = cc
  length-delete k v ((j, w) ∷ m) h e = elim (Bool-cases (str_eq j k)) [
    | inl same ↦ rw same (
        ap (λ r. length r + 1)
          (delete_absent k m (subst (λ i. lookup i m ≡ none) ((eq_iff j k).0 same) h.0))
        ∙ omega arith)
    | inr other ↦ rw other (omega (arith, length-delete k v m h.1 (ground arith)))
  ]

module _ {F : Type 0} where
  -- The orders sent are those with an event and those that wait.
  pub record Balanced (l : BotLoop F) (n : ℕ) : Type 0 where
    pub unique : IsMap l.pending
    pub counted : l.orders_sent ≡ pos n
    pub balance : length l.emitted + length l.pending ≡ n

  -- The id of a new order is not that of one that waits.
  abbrev pub IsNew : Input F → BotLoop F → Type 0
  IsNew (ticks o t_send is_written) l = lookup o.order_id l.pending ≡ none
  IsNew (acks ack now) l = Unit
  IsNew cancelled l = Unit

  unfoldable pub AllNew : String → List (Input F) → BotLoop F → Type 0
  AllNew session_id [] l = Unit
  AllNew session_id (i ∷ is) l = IsNew i l × AllNew session_id is (ws_step session_id i l)

  on_ack-Balanced :
      (session_id : String) (ack : OrderResponse F) (now : ℤ) (l : BotLoop F) (n : ℕ)
      → Balanced l n
      → Balanced (on_ack session_id ack now l) n
  unfolding on_ack
  on_ack-Balanced session_id ack now l n b = elim (Option-cases (lookup ack.order_id l.pending)) [
    | inl e ↦ rw (e, on_ack) b
    | inr (p, e) ↦
        rw (e, on_ack)
          (record {
            unique = IsMap-delete ack.order_id l.pending b.unique;
            counted = b.counted;
            balance = omega (
              arith,
              length-append l.emitted (_ ∷ []),
              length-delete ack.order_id p l.pending b.unique e,
              b.balance,
            );
          })
  ]

  on_tick-Balanced :
      (o : Order F) (t_send : ℤ) (l : BotLoop F) (n : ℕ)
      → lookup o.order_id l.pending ≡ none
      → n + 1 < 9223372036854775808
      → Balanced l n
      → Balanced (on_tick o t_send true l) (n + 1)
  unfolding on_tick add64
  on_tick-Balanced o t_send l n e h b = record {
    unique = IsMap-insert o.order_id (o, t_send) l.pending b.unique;
    counted = ground (arith, b.counted);
    balance = omega (arith, length-insert_new o.order_id (o, t_send) l.pending e, b.balance);
  }

  ws_step-Balanced :
      (session_id : String) (i : Input F) (l : BotLoop F) (n : ℕ)
      → IsNew i l
      → n + 1 < 9223372036854775808
      → Balanced l n
      → (m : ℕ) × (m ≤ n + 1) × Balanced (ws_step session_id i l) m
  unfolding ws_step on_tick
  ws_step-Balanced session_id (acks ack now) l n new h b =
      (n, omega arith, on_ack-Balanced session_id ack now l n b)
  ws_step-Balanced session_id (ticks o t_send true) l n new h b =
      (n + 1, omega arith, on_tick-Balanced o t_send l n new h b)
  ws_step-Balanced session_id (ticks o t_send false) l n new h b =
      (n, omega arith, record { unique = b.unique; counted = b.counted; balance = b.balance })
  ws_step-Balanced session_id cancelled l n new h b =
      (n, omega arith, record { unique = b.unique; counted = b.counted; balance = b.balance })

  run_ws-Balanced :
      (session_id : String) (is : List (Input F)) (l : BotLoop F) (n : ℕ)
      → AllNew session_id is l
      → n + length is < 9223372036854775808
      → Balanced l n
      → (m : ℕ) × Balanced (run_ws session_id is l) m
  unfolding run_ws AllNew
  run_ws-Balanced session_id [] l n a h b = (n, b)
  run_ws-Balanced session_id (i ∷ is) l n a h b = elim (Bool-cases l.is_running) [
    | inl on ↦
        let (k, le, bk) = ws_step-Balanced session_id i l n a.0 (omega (arith, h)) b in
        subst
          (λ t.
            (m : ℕ) × Balanced (if t then run_ws session_id is (ws_step session_id i l) else l) m)
          (sym on)
          (run_ws-Balanced session_id is (ws_step session_id i l) k a.1 (omega (arith, h, le)) bk)
    | inr off ↦
        subst
          (λ t.
            (m : ℕ) × Balanced (if t then run_ws session_id is (ws_step session_id i l) else l) m)
          (sym off) (n, b)
  ]

  -- However acknowledgements and ticks come, where each new order's id is not one that waits, the
  -- orders that the WebSocket loop counts as sent are exactly those with an event and those that
  -- still wait for their answer; no order id waits twice.
  pub run_ws_accounts :
      (session_id : String) (is : List (Input F))
      → AllNew session_id is new_loop
      → length is < 9223372036854775808
      → ((run_ws session_id is new_loop).orders_sent
          ≡ pos (
              length (run_ws session_id is new_loop).emitted
              + length (run_ws session_id is new_loop).pending))
        × IsMap (run_ws session_id is new_loop).pending
  run_ws_accounts session_id is a h =
      let (m, b) =
        run_ws-Balanced session_id is new_loop 0 a (omega (arith, h))
          (record { unique = tt; counted = refl; balance = refl }) in
      (b.counted ∙ sym (ap pos b.balance), b.unique)

module _ {F : Type 0} ⦃fl : Float64 F⦄ where
  -- An event that says what came of its order.
  abbrev pub Says : String → TelemetryEvent F → Type 0
  Says session_id e = (e.session_id ≡ session_id) × (e.event_type ≢ "")

  rest_event-Says : (session_id : String) (r : Round F) → Says session_id (rest_event session_id r)
  unfolding rest_event
  rest_event-Says session_id r = cases r.answer
    where
      cases :
          (answer : Option (OrderResponse F))
          → Says session_id (rest_event session_id (record r { answer = answer }))
      cases none = (refl, λ e. ground (arith, eq_iff "ERROR" ""))
      cases (some ack) = (
        refl,
        λ e. elim (Bool-cases (str_eq ack.status "")) [
          | inl blank ↦ ground (arith, eq_iff "ACK" "")
          | inr told ↦ ground (arith, eq_iff ack.status "")
        ],
      )

  -- One event for each order counted, and each says what came of it.
  abbrev Told : String → BotLoop F → ℕ → Type 0
  Told session_id l n =
      (l.orders_sent ≡ pos n) × (length l.emitted ≡ n) × All (Says session_id) l.emitted

  round : String → Round F → BotLoop F → BotLoop F
  round session_id r l = record (emit (rest_event session_id r) l) {
    orders_sent = add64 l.orders_sent (pos 1);
  }

  round-Told :
      (session_id : String) (r : Round F) (l : BotLoop F) (n : ℕ)
      → n + 1 < 9223372036854775808
      → Told session_id l n
      → Told session_id (round session_id r l) (n + 1)
  unfolding round add64
  round-Told session_id r l n h (e, q, a) = (
    ground arith,
    omega (arith, q, length-append l.emitted (rest_event session_id r ∷ [])),
    All-append (Says session_id) l.emitted _ a (rest_event-Says session_id r, tt),
  )

  made-Told :
      (session_id : String) (r : Round F) (made : Bool) (l : BotLoop F) (n : ℕ)
      → n + 1 < 9223372036854775808
      → Told session_id l n
      → (m : ℕ) × (m ≤ n + 1) × Told session_id (if made then round session_id r l else l) m
  made-Told session_id r true l n h t = (n + 1, omega arith, round-Told session_id r l n h t)
  made-Told session_id r false l n h t = (n, omega arith, t)

  run_rest-Told :
      (session_id : String) (rs : List (Round F)) (l : BotLoop F) (n : ℕ)
      → n + length rs < 9223372036854775808
      → Told session_id l n
      → (m : ℕ) × Told session_id (run_rest session_id rs l) m
  unfolding run_rest round
  run_rest-Told session_id [] l n h t = (n, t)
  run_rest-Told session_id (r ∷ rs) l n h t =
      let (k, le, tk) = made-Told session_id r r.is_made l n (omega (arith, h)) t in
      run_rest-Told session_id rs (if r.is_made then round session_id r l else l) k
        (omega (arith, h, le)) tk

  -- The REST loop hands on one event for each order that it counts, whatever the answers are, and each
  -- is of the bot's session and has an event type.
  pub run_rest_accounts :
      (session_id : String) (rs : List (Round F))
      → length rs < 9223372036854775808
      → ((run_rest session_id rs new_loop).orders_sent
          ≡ pos (length (run_rest session_id rs new_loop).emitted))
        × All (Says session_id) (run_rest session_id rs new_loop).emitted
  run_rest_accounts session_id rs h =
      let (m, (e, q, a)) =
        run_rest-Told session_id rs new_loop 0 (omega (arith, h)) (refl, refl, tt) in
      (e ∙ sym (ap pos q), a)
