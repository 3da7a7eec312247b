-- ===== src/Telemetry/Consumer.antt =====
-- The consumer loop of services/telemetry-service/main.go. What the broker hands out is a list of
-- answers; `encoding/json` is the parameter `decode`; the clock and the random numbers come with
-- each message. `none` is a panic.
pub mod Totality
pub mod Tallies
mod Tests
use iicpc_summer_hackathon.Prelude.{
  ℕ, String, Bool, true, false, List, [], ◌∷◌, ◌++◌, Option, none, some, ◌>>=◌,
}
use iicpc_summer_hackathon.Prelude.Int.{ℤ}
use iicpc_summer_hackathon.Prelude.Dict.{Dict}
use iicpc_summer_hackathon.Prelude.Float.{Float64}
use iicpc_summer_hackathon.Telemetry.Event.{TelemetryEvent}
use iicpc_summer_hackathon.Telemetry.Validator.{Validator, validate}
use iicpc_summer_hackathon.Telemetry.Metrics.{SessionMetrics, record_session}
use iicpc_summer_hackathon.Telemetry.Writer.{TsWriter, add}

pub record Message : Type 0 where
  pub offset : ℕ
  pub value : String
  pub now : ℤ
  -- what the rows of a flush read of the clock
  pub clock : ℕ → ℤ
  pub draw : ℤ → ℤ

-- What FetchMessage returns. An error comes with whether the context is done.
pub data Fetched : Type 0 where
  failed : Bool → Fetched
  message : Message → Fetched

pub record Consumer (F : Type 0) : Type 0 where
  pub validator : Validator F
  pub ts_writer : Option (TsWriter F)
  pub sessions : Dict SessionMetrics
  pub committed : List ℕ

module _ {F : Type 0} ⦃fl : Float64 F⦄ (decode : String → Option (TelemetryEvent F)) where
  abbrev pub commit : Message → Consumer F → Consumer F
  commit msg c = record c { committed = c.committed ++ msg.offset ∷ [] }

  abbrev pub store : (ℕ → ℤ) → TelemetryEvent F → Option (TsWriter F) → Option (TsWriter F)
  store clock e none = none
  store clock e (some w) = some (add clock e w)

  -- The body of the loop for an event that decodes.
  pub process : Message → TelemetryEvent F → Consumer F → Option (Consumer F)
  process msg e c =
      let (e', v) = validate c.validator e in
      (do
        sessions ←
            record_session msg.draw msg.now c.sessions e'.session_id e'.latency_ns e'.violation
        some (
            commit msg (record c {
              validator = v;
              ts_writer = store msg.clock e' c.ts_writer;
              sessions = sessions;
            })))

  pub consume : Message → Consumer F → Option (Consumer F)
  unfolding process
  consume msg c = elim (decode msg.value) [ none ↦ some (commit msg c) | some e ↦ process msg e c ]

  -- The loop: an error ends it where the context is done, and is skipped otherwise.
  pub run : List Fetched → Consumer F → Option (Consumer F)
  unfolding consume
  run [] c = some c
  run (failed done ∷ rest) c = elim done [ true ↦ some c | false ↦ run rest c ]
  run (message msg ∷ rest) c = do c' ← consume msg c; run rest c'
