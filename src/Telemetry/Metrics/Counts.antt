-- ===== src/Telemetry/Metrics/Counts.antt =====
-- How many events of a list are of a session, and how many of those are flagged.
use iicpc_summer_hackathon.Prelude.{
  ℕ, ◌+◌, ◌≤◌, String, ◌≡◌, refl, ◌∙◌, true, ◌&&◌, List, [], ◌∷◌, ◌++◌, arith, length,
  if◌then◌else◌, str_eq,
}
use iicpc_summer_hackathon.Telemetry.Event.{TelemetryEvent}
use iicpc_summer_hackathon.Telemetry.Metrics.Tally.{bump}

module _ {F : Type 0} where
  -- The events of a session, and those that are flagged.
  abbrev pub count_of : String → List (TelemetryEvent F) → ℕ
  count_of s [] = 0
  count_of s (e ∷ es) = let rest = count_of s es in if str_eq e.session_id s then 1 + rest else rest

  abbrev pub flagged_of : String → List (TelemetryEvent F) → ℕ
  flagged_of s [] = 0
  flagged_of s (e ∷ es) =
      let rest = flagged_of s es in if str_eq e.session_id s && e.violation then 1 + rest else rest

  -- The counts of orders and of violations behind a list of verdicts.
  abbrev pub orders_after : (String → ℕ) → List (TelemetryEvent F) → String → ℕ
  orders_after f [] = f
  orders_after f (e ∷ es) = orders_after (bump f e.session_id true) es

  abbrev pub violations_after : (String → ℕ) → List (TelemetryEvent F) → String → ℕ
  violations_after g [] = g
  violations_after g (e ∷ es) = violations_after (bump g e.session_id e.violation) es

  pub orders_after-lem :
      (f : String → ℕ) (es : List (TelemetryEvent F)) (s : String)
      → orders_after f es s ≡ count_of s es + f s
  orders_after-lem f [] s = omega arith
  orders_after-lem f (e ∷ es) s = orders_after-lem (bump f e.session_id true) es s ∙ ground arith

  pub violations_after-lem :
      (g : String → ℕ) (es : List (TelemetryEvent F)) (s : String)
      → violations_after g es s ≡ flagged_of s es + g s
  violations_after-lem g [] s = omega arith
  violations_after-lem g (e ∷ es) s =
      violations_after-lem (bump g e.session_id e.violation) es s ∙ ground arith

  pub orders_after-append :
      (f : String → ℕ) (xs ys : List (TelemetryEvent F))
      → orders_after f (xs ++ ys) ≡ orders_after (orders_after f xs) ys
  orders_after-append f [] ys = refl
  orders_after-append f (e ∷ xs) ys = orders_after-append (bump f e.session_id true) xs ys

  pub violations_after-append :
      (g : String → ℕ) (xs ys : List (TelemetryEvent F))
      → violations_after g (xs ++ ys) ≡ violations_after (violations_after g xs) ys
  violations_after-append g [] ys = refl
  violations_after-append g (e ∷ xs) ys =
      violations_after-append (bump g e.session_id e.violation) xs ys

  pub count_of-le : (s : String) (es : List (TelemetryEvent F)) → count_of s es ≤ length es
  count_of-le s [] = omega arith
  count_of-le s (e ∷ es) = ground (arith, count_of-le s es)
