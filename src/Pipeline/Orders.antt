-- ===== src/Pipeline/Orders.antt =====
-- The orders of the bots against the orders in the metrics.
use iicpc_summer_hackathon.Prelude.{
  ℕ, ◌+◌, ◌<◌, Bool, true, false, String, ◌≡◌, refl, sym, ap, ap₂, ◌∙◌, List, [], ◌∷◌, Option, some,
  arith, All, length, if◌then◌else◌, str_eq,
}
use iicpc_summer_hackathon.Prelude.Int.{ℤ, pos}
use iicpc_summer_hackathon.Prelude.Float.{Float64}
use iicpc_summer_hackathon.Prelude.Merge.{
  Merge, both_done, from_first, from_second, Merged, no_lists, one_more,
}
use iicpc_summer_hackathon.Telemetry.Event.{TelemetryEvent}
use iicpc_summer_hackathon.Telemetry.Validator.{Validator, validate}
use iicpc_summer_hackathon.Telemetry.Validator.Isolation.{validate_all, session_id-validate}
use iicpc_summer_hackathon.Telemetry.Metrics.{session_metrics}
use iicpc_summer_hackathon.Telemetry.Metrics.Counts.{count_of}
use iicpc_summer_hackathon.Telemetry.Metrics.Reservoir.{IsDraw}
use iicpc_summer_hackathon.Telemetry.Consumer.{Message, Fetched, Consumer, run}
use iicpc_summer_hackathon.Telemetry.Consumer.Totality.{received, decoded, or_skip}
use iicpc_summer_hackathon.Telemetry.Consumer.Tallies.{run_tallies}
use iicpc_summer_hackathon.Pipeline.{
  BotRun, loop_of, emitted_of, settled, settled_for, IsShort, Carries,
}
use iicpc_summer_hackathon.Pipeline.Loops.{IsOf, loop_of-Accounted}

module _ {F : Type 0} where
  count_of-Merge :
      (s : String) {xs ys zs : List (TelemetryEvent F)}
      → Merge xs ys zs
      → count_of s zs ≡ count_of s xs + count_of s ys
  count_of-Merge s both_done = refl
  count_of-Merge s (from_first m) = ground (arith, count_of-Merge s m)
  count_of-Merge s (from_second m) = ground (arith, count_of-Merge s m)

module _ {F : Type 0} ⦃fl : Float64 F⦄ where
  count_of-verdicts :
      (s : String) (v : Validator F) (es : List (TelemetryEvent F))
      → count_of s (validate_all v es).0 ≡ count_of s es
  unfolding validate_all
  count_of-verdicts s v [] = refl
  count_of-verdicts s v (e ∷ es) =
      ap₂ (λ t n. if str_eq t s then 1 + n else n) (session_id-validate v e)
        (count_of-verdicts s (validate v e).1 es)

  count_of-IsOf :
      (s t : String) (es : List (TelemetryEvent F))
      → All (IsOf t) es
      → count_of s es ≡ (if str_eq t s then length es else 0)
  count_of-IsOf s t [] h = ground arith
  count_of-IsOf s t (e ∷ es) h = rw h.0 (ground (arith, count_of-IsOf s t es h.1))

  count_of-bot :
      (s : String) (b : BotRun F)
      → IsShort b
      → count_of s (loop_of b).emitted
        ≡ (if str_eq b.bot.session_id s then settled (loop_of b) else 0)
  count_of-bot s b short =
      let (sent, own) = loop_of-Accounted b short in
      count_of-IsOf s b.bot.session_id (loop_of b).emitted own
      ∙ ap (λ n. if str_eq b.bot.session_id s then n else 0) (sym sent)

  count_of-bots :
      (s : String) (bots : List (BotRun F)) {es : List (TelemetryEvent F)}
      → All IsShort bots
      → Merged (emitted_of bots) es
      → count_of s es ≡ settled_for s bots
  count_of-bots s [] h no_lists = refl
  count_of-bots s (b ∷ bots) h (one_more rest m) =
      count_of-Merge s m
      ∙ ap₂ ◌+◌ (count_of-bot s b h.0) (count_of-bots s bots h.1 rest)
      ∙ join (str_eq b.bot.session_id s) (settled (loop_of b)) (settled_for s bots)
    where
      join :
          (same : Bool) (n rest : ℕ)
          → (if same then n else 0) + rest ≡ (if same then n + rest else rest)
      join true n rest = refl
      join false n rest = omega arith

  module _ (decode : String → Option (TelemetryEvent F)) where
    decoded-Carries :
        (msgs : List Message) (es : List (TelemetryEvent F))
        → Carries decode msgs es
        → decoded decode msgs ≡ es
    decoded-Carries [] [] q = refl
    decoded-Carries [] (e ∷ es) q = absurd (cc q)
    decoded-Carries (msg ∷ msgs) [] q = absurd (cc q)
    decoded-Carries (msg ∷ msgs) (e ∷ es) q =
        let value : decode msg.value ≡ some e = cc q in
        let values : Carries decode msgs es = cc q in
        ap₂ (or_skip decode) value (decoded-Carries msgs es values)

    -- While the topic hands the consumer each event of the bots once, each bot's in its order and all
    -- bots' interleaved in any way, and there are fewer than 2^63 of each bot's rounds or inputs and of
    -- messages, and no bot gives a new order the id of one that waits: the consumer runs without a panic,
    -- and from no metrics on counts for every session exactly the orders that its bots, in either loop,
    -- count as sent, less those that still wait for an answer, whatever the exchange answered and the
    -- validator found.
    pub orders_arrive :
        (bots : List (BotRun F)) (es : List (TelemetryEvent F)) (fs : List Fetched) (c : Consumer F)
        → All IsShort bots
        → Merged (emitted_of bots) es
        → Carries decode (received decode fs) es
        → c.sessions ≡ []
        → All (λ msg. IsDraw msg.draw) (received decode fs)
        → length (received decode fs) < 9223372036854775808
        → (c' : Consumer F) × (run decode fs c ≡ some c')
          × ((s : String) (now : ℤ)
              → (session_metrics now c'.sessions s).total_orders ≡ pos (settled_for s bots))
    orders_arrive bots es fs c short merged carried empty d lt =
        let (c', ran, tallies) = run_tallies decode fs c empty d lt in
        let same = decoded-Carries (received decode fs) es carried in
        (
          c',
          ran,
          λ s now.
              (tallies s now).0
              ∙ ap pos (
                  count_of-verdicts s c.validator (decoded decode (received decode fs))
                  ∙ ap (count_of s) same
                  ∙ count_of-bots s bots short merged),
        )
