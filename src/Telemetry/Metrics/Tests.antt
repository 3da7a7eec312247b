-- ===== src/Telemetry/Metrics/Tests.antt =====
-- The metrics on small inputs.
use iicpc_summer_hackathon.Prelude.{refl, true, false, List, [], ◌∷◌}
use iicpc_summer_hackathon.Prelude.Int.{ℤ, pos, negsuc}
use iicpc_summer_hackathon.Telemetry.Sample.{price_units}
use iicpc_summer_hackathon.Telemetry.Metrics.{SessionMetrics, new_metrics}
use iicpc_summer_hackathon.Telemetry.Metrics.Reservoir.{Sample, IsDraw}

abbrev first_draw : ℤ → ℤ
first_draw n = pos 0

first_draw-IsDraw : IsDraw first_draw
first_draw-IsDraw n h = (0, refl, h)

abbrev samples : List Sample
samples =
    record { latency = pos 300; violation = false; draw = first_draw }
    ∷ record { latency = negsuc 4; violation = true; draw = first_draw }
    ∷ record { latency = pos 100; violation = true; draw = first_draw }
    ∷ []

abbrev three : SessionMetrics
three = record (new_metrics (pos 0)) { latencies = pos 300 ∷ pos 100 ∷ pos 200 ∷ [] }
