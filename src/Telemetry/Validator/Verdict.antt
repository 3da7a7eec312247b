-- ===== src/Telemetry/Validator/Verdict.antt =====
-- When an event is flagged as a violation.
use iicpc_summer_hackathon.Prelude.{◌≡◌, ◌↔◌, ◌⊎◌, true, arith, eq_iff}
use iicpc_summer_hackathon.Prelude.Float.{Float64}
use iicpc_summer_hackathon.Telemetry.Event.{TelemetryEvent}
use iicpc_summer_hackathon.Telemetry.Book.{OrderBook, best_bid, best_ask}
use iicpc_summer_hackathon.Telemetry.Validator.{Validator, get_book, check_fill, validate}

module _ {F : Type 0} ⦃fl : Float64 F⦄ where
  -- A sell that filled more than 0.001 under a best bid above 0.
  abbrev pub SoldLow : OrderBook F → TelemetryEvent F → Type 0
  SoldLow book e =
      (e.side ≡ "S")
      × (fl.lt (fl.decimal 0 0) (best_bid book) ≡ true)
      × (fl.lt e.fill_price (fl.sub (best_bid book) (fl.decimal 1 3)) ≡ true)

  -- A buy that filled more than 0.001 over a best ask that exists.
  abbrev pub BoughtHigh : OrderBook F → TelemetryEvent F → Type 0
  BoughtHigh book e =
      (e.side ≡ "B")
      × (fl.lt (best_ask book) fl.max_float ≡ true)
      × (fl.lt (fl.add (best_ask book) (fl.decimal 1 3)) e.fill_price ≡ true)

  -- A fill of more than 0.0001 beyond the order's quantity.
  abbrev pub Overfilled : TelemetryEvent F → Type 0
  Overfilled e = fl.lt (fl.add e.qty (fl.decimal 1 4)) e.fill_qty ≡ true

  flagged_only_if :
      (book : OrderBook F) (e : TelemetryEvent F)
      → (check_fill book e).violation ≡ true
      → (e.violation ≡ true) ⊎ SoldLow book e ⊎ BoughtHigh book e ⊎ Overfilled e
  unfolding check_fill
  flagged_only_if book e h = ground (arith, eq_iff e.side "S", eq_iff e.side "B")

  flagged_if :
      (book : OrderBook F) (e : TelemetryEvent F)
      → (e.violation ≡ true) ⊎ SoldLow book e ⊎ BoughtHigh book e ⊎ Overfilled e
      → (check_fill book e).violation ≡ true
  unfolding check_fill
  flagged_if book e h = ground (arith, eq_iff e.side "S", eq_iff e.side "B")

  -- A validated event is flagged exactly when it came flagged, or it is a fill and sold low, bought
  -- high or overfilled against the session's book as it was before the event.
  pub validate-violation_iff :
      (v : Validator F) (e : TelemetryEvent F)
      → let book = (get_book v e.session_id).0 in
        ((validate v e).0.violation ≡ true) ↔ (
          (e.violation ≡ true)
          ⊎ ((e.event_type ≡ "FILL") × (SoldLow book e ⊎ BoughtHigh book e ⊎ Overfilled e)))
  unfolding validate
  validate-violation_iff v e =
      let book = (get_book v e.session_id).0 in
      (
        (λ h. ground (
          arith,
          eq_iff e.event_type "ACK",
          eq_iff e.event_type "FILL",
          eq_iff "ACK" "FILL",
          flagged_only_if book e,
        )),
        (λ h. ground (
          arith,
          eq_iff e.event_type "ACK",
          eq_iff e.event_type "FILL",
          eq_iff "ACK" "FILL",
          flagged_if book e,
        )),
      )

  -- Validation changes nothing of an event but the flag and the message.
  pub validate_keeps :
      (v : Validator F) (e : TelemetryEvent F)
      → let e' = (validate v e).0 in
        record e' { violation = e.violation; violation_msg = e.violation_msg } ≡ e
  unfolding validate check_fill
  validate_keeps v e = ground arith
