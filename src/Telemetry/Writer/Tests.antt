-- ===== src/Telemetry/Writer/Tests.antt =====
-- A run of the writer, and the theorems at it.
use iicpc_summer_hackathon.Prelude.{ℕ, ◌+◌, ◌≡◌, refl, true, [], ◌∷◌, ◌++◌}
use iicpc_summer_hackathon.Prelude.Int.{pos}
use iicpc_summer_hackathon.Telemetry.Event.{TelemetryEvent}
use iicpc_summer_hackathon.Telemetry.Sample.{limit_order}
use iicpc_summer_hackathon.Telemetry.Writer.{
  TsWriter, row, begin_flush, end_flush, append, add, adds, flushes, copied, Run, here, next,
  new_ts_writer,
}
use iicpc_summer_hackathon.Telemetry.Writer.Conservation.{held, held-Run}

abbrev one : TelemetryEvent ℕ
one = limit_order "a" "B" 1000000

abbrev after_add : TsWriter ℕ
after_add = add (λ i. pos 7) one new_ts_writer

abbrev after_flush : TsWriter ℕ
after_flush = begin_flush (λ i. pos 8) after_add

abbrev after_copy : TsWriter ℕ
after_copy = end_flush true (row (pos 8) one ∷ []) (record after_flush { copying = [] })

lifetime : Run new_ts_writer (((([] ++ one ∷ []) ++ []) ++ [])) after_copy
unfolding add append begin_flush
lifetime =
    next (next (next here (adds (λ i. pos 7) one new_ts_writer)) (flushes (λ i. pos 8) after_add))
      (copied true [] [] (row (pos 8) one ∷ []) after_flush refl)

held-Run_example :
    held (λ e. e.price) after_copy ≡ held {F = ℕ} (λ e. e.price) new_ts_writer + 1000000
held-Run_example = held-Run (λ e. e.price) lifetime
