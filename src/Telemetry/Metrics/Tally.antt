-- ===== src/Telemetry/Metrics/Tally.antt =====
-- The counts of all sessions' metrics when one of them records an order.
use iicpc_summer_hackathon.Prelude.{
  ℕ, ◌+◌, ◌<◌, String, ◌≡◌, refl, subst, ap, ◌∙◌, inl, inr, Bool, true, false, ◌&&◌, Option, none,
  some, arith, if◌then◌else◌, str_eq, eq_iff, Bool-cases, ◌>>=◌,
}
use iicpc_summer_hackathon.Prelude.Int.{ℤ}
use iicpc_summer_hackathon.Prelude.Dict.{Dict, lookup, insert, lookup-insert, lookup-insert_self}
use iicpc_summer_hackathon.Telemetry.Metrics.{
  SessionMetrics, new_metrics, session_metrics, record_session,
}
use iicpc_summer_hackathon.Telemetry.Metrics.Reservoir.{
  IsDraw, Counted, Counted_at, one_if, record_order-Counted,
}

abbrev pub Tally : SessionMetrics → ℕ → ℕ → Type 0
Tally m orders violated = (positive : ℕ) × Counted (λ _. Unit {0}) m orders violated positive

-- Every session's metrics count so many orders and violations.
abbrev pub Tallied : (String → ℕ) → (String → ℕ) → Dict SessionMetrics → Type 0
Tallied f g sessions = (s : String) (now : ℤ) → Tally (session_metrics now sessions s) (f s) (g s)

abbrev pub bump : (String → ℕ) → String → Bool → String → ℕ
bump f t b s = if str_eq t s && b then 1 + f s else f s

one_if-plus : (b : Bool) (n : ℕ) → one_if b + n ≡ (if b then 1 + n else n)
one_if-plus true n = omega arith
one_if-plus false n = omega arith

metrics-insert_self :
    (t : String) (now : ℤ) (m : SessionMetrics) (sessions : Dict SessionMetrics)
    → session_metrics now (insert t m sessions) t ≡ m
metrics-insert_self t now m sessions =
    ap
      (λ (o : Option SessionMetrics). elim o as (λ _. SessionMetrics) [
        | some m ↦ m
        | none ↦ new_metrics now
      ])
      (lookup-insert_self t m sessions)

metrics-insert_ne :
    (t s : String) (now : ℤ) (m : SessionMetrics) (sessions : Dict SessionMetrics)
    → str_eq t s ≡ false
    → session_metrics now (insert t m sessions) s ≡ session_metrics now sessions s
metrics-insert_ne t s now m sessions other =
    let not_that : lookup s (insert t m sessions) ≡ lookup s sessions =
      lookup-insert t s m sessions ∙ rw other refl in
    ap
      (λ (o : Option SessionMetrics). elim o as (λ _. SessionMetrics) [
        | some m ↦ m
        | none ↦ new_metrics now
      ])
      not_that

insert-Tallied :
    (f g : String → ℕ) (t : String) (violated : Bool) (m : SessionMetrics)
    (sessions : Dict SessionMetrics)
    → Tally m (1 + f t) (if violated then 1 + g t else g t)
    → Tallied f g sessions
    → Tallied (bump f t true) (bump g t violated) (insert t m sessions)
insert-Tallied f g t violated m sessions new old s now = elim (Bool-cases (str_eq t s)) [
  | inl same ↦ rw same (
      subst
        (λ x.
          Tally (session_metrics now (insert t m sessions) x) (1 + f x)
            (if violated then 1 + g x else g x))
        ((eq_iff t s).0 same) (rw (metrics-insert_self t now m sessions) new))
  | inr other ↦ rw (other, metrics-insert_ne t s now m sessions other) (old s now)
]

pub record_session-Tallied :
    (f g : String → ℕ) (draw : ℤ → ℤ) (now : ℤ) (sessions : Dict SessionMetrics) (t : String)
    (latency : ℤ) (violated : Bool)
    → IsDraw draw
    → Tallied f g sessions
    → f t + 1 < 9223372036854775808
    → (sessions' : Dict SessionMetrics) × (record_session draw now sessions t latency violated
        ≡ some sessions')
      × Tallied (bump f t true) (bump g t violated) sessions'
unfolding record_session
record_session-Tallied f g draw now sessions t latency violated d h lt =
    let (positive, c) = h t now in
    let (m, recorded, c') =
      record_order-Counted (λ _. Unit {0})
        (record { latency = latency; violation = violated; draw = draw })
        (session_metrics now sessions t) (f t) (g t) positive d c lt (λ _. tt) in
    (
      insert t m sessions,
      ap (λ o. o >>= λ m'. some (insert t m' sessions)) recorded,
      insert-Tallied f g t violated m sessions
          (
            _,
            Counted_at (λ _. Unit {0}) m _ _ _ _ _ _ c' (omega arith) (one_if-plus violated (g t))
                refl,
          )
          h,
    )
