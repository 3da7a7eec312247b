-- ===== src/Telemetry/Validator/Tests.antt =====
-- Verdicts on prices in units of 1 / 10000, and the theorems at such inputs.
use iicpc_summer_hackathon.Prelude.{ℕ, ◌≡◌, ◌↔◌, ◌⊎◌, true, List, [], ◌∷◌}
use iicpc_summer_hackathon.Telemetry.Event.{TelemetryEvent}
use iicpc_summer_hackathon.Telemetry.Sample.{price_units, limit_order, fill_order}
use iicpc_summer_hackathon.Telemetry.Validator.{Validator, new_validator, get_book, validate}
use iicpc_summer_hackathon.Telemetry.Validator.Verdict.{
  SoldLow, BoughtHigh, Overfilled, validate-violation_iff,
}
use iicpc_summer_hackathon.Telemetry.Validator.Isolation.{
  book_of, only, validate_all, replay, validate_all-only,
}

abbrev other_session : TelemetryEvent ℕ
other_session = record (limit_order "x" "B" 500) { session_id = "t" }

abbrev mixed : List (TelemetryEvent ℕ)
mixed = limit_order "a" "B" 1000000 ∷ other_session ∷ fill_order "b" "S" 990000 ∷ []

abbrev warm : Validator ℕ
warm = (validate new_validator (limit_order "a" "B" 1000000)).1

-- A sell at 99 under a best bid of 100 is flagged.
validate-violation_iff_example :
    let e = fill_order "b" "S" 990000 in
    let book = (get_book warm "s").0 in
    ((validate warm e).0.violation ≡ true) ↔ (
      (e.violation ≡ true)
      ⊎ ((e.event_type ≡ "FILL") × (SoldLow book e ⊎ BoughtHigh book e ⊎ Overfilled e)))
validate-violation_iff_example = validate-violation_iff warm (fill_order "b" "S" 990000)

validate_all-only_example :
    let alone = replay (book_of "s" new_validator) (only "s" mixed) in
    (only "s" (validate_all new_validator mixed).0 ≡ alone.0)
    × (book_of "s" (validate_all new_validator mixed).1 ≡ alone.1)
validate_all-only_example = validate_all-only new_validator mixed "s"
