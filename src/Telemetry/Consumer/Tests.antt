-- ===== src/Telemetry/Consumer/Tests.antt =====
-- A run of the consumer, and the theorem at it.
use iicpc_summer_hackathon.Prelude.{
  ℕ, String, ◌≡◌, refl, true, false, List, [], ◌∷◌, Option, none, some, arith, if◌then◌else◌,
  str_eq,
}
use iicpc_summer_hackathon.Prelude.Int.{ℤ, pos}
use iicpc_summer_hackathon.Prelude.Dict.{AllValues-nil}
use iicpc_summer_hackathon.Telemetry.Event.{TelemetryEvent}
use iicpc_summer_hackathon.Telemetry.Sample.{price_units, limit_order}
use iicpc_summer_hackathon.Telemetry.Validator.{new_validator}
use iicpc_summer_hackathon.Telemetry.Validator.Isolation.{validate_all}
use iicpc_summer_hackathon.Telemetry.Metrics.{session_metrics}
use iicpc_summer_hackathon.Telemetry.Metrics.Counts.{count_of, flagged_of}
use iicpc_summer_hackathon.Telemetry.Consumer.Tallies.{verdicts, run_tallies}
use iicpc_summer_hackathon.Telemetry.Consumer.{Message, Fetched, failed, message, Consumer, run}
use iicpc_summer_hackathon.Telemetry.Consumer.Totality.{Within, run-total}

abbrev decode : String → Option (TelemetryEvent ℕ)
decode s = if str_eq s "bad" then none else some (limit_order s "B" 1000000)

abbrev msg : ℕ → String → Message
msg offset value = record {
  offset = offset;
  value = value;
  now = pos 1;
  clock = λ i. pos 1;
  draw = λ n. pos 0;
}

abbrev idle : Consumer ℕ
idle = record { validator = new_validator; ts_writer = none; sessions = []; committed = [] }

abbrev answers : List Fetched
answers = message (msg 4 "a") ∷ failed false ∷ message (msg 5 "bad") ∷ failed true ∷ []

run-total_example :
    (c : Consumer ℕ) × (run decode answers idle ≡ some c)
    × (c.committed ≡ 4 ∷ 5 ∷ [])
    × (c.validator ≡ (validate_all new_validator (limit_order "a" "B" 1000000 ∷ [])).1)
run-total_example =
    run-total decode answers 0 idle ((λ n h. (0, refl, h)), ((λ n h. (0, refl, h)), tt))
      (AllValues-nil (Within 0)) (omega arith)

run_tallies_example :
    (c : Consumer ℕ) × (run decode answers idle ≡ some c)
    × ((s : String) (now : ℤ)
        → ((session_metrics now c.sessions s).total_orders
            ≡ pos (count_of s (verdicts decode new_validator (msg 4 "a" ∷ msg 5 "bad" ∷ []))))
          × ((session_metrics now c.sessions s).violations
              ≡ pos (flagged_of s (verdicts decode new_validator (msg 4 "a" ∷ msg 5 "bad" ∷ [])))))
run_tallies_example =
    run_tallies decode answers idle refl ((λ n h. (0, refl, h)), ((λ n h. (0, refl, h)), tt))
      (omega arith)
