-- ===== src/Telemetry/Consumer/Tallies.antt =====
-- The metrics that the consumer leaves, against the verdicts of the validator.
use iicpc_summer_hackathon.Prelude.{
  ℕ, ◌+◌, ◌<◌, ◌≤◌, String, ◌≡◌, refl, sym, subst, subst₂, ap, ◌∙◌, true, false, List, [], ◌∷◌,
  ◌++◌, Option, none, some, arith, All, length, ◌>>=◌,
}
use iicpc_summer_hackathon.Prelude.Int.{ℤ, pos}
use iicpc_summer_hackathon.Prelude.Dict.{Dict, lookup}
use iicpc_summer_hackathon.Prelude.Float.{Float64}
use iicpc_summer_hackathon.Telemetry.Event.{TelemetryEvent}
use iicpc_summer_hackathon.Telemetry.Validator.{Validator, validate}
use iicpc_summer_hackathon.Telemetry.Validator.Isolation.{validate_all}
use iicpc_summer_hackathon.Telemetry.Metrics.{SessionMetrics, session_metrics}
use iicpc_summer_hackathon.Telemetry.Metrics.Reservoir.{IsDraw}
use iicpc_summer_hackathon.Telemetry.Consumer.{
  Message, Fetched, failed, message, Consumer, commit, store, process, consume, run,
}
use iicpc_summer_hackathon.Telemetry.Consumer.Totality.{received, decoded, or_skip}
use iicpc_summer_hackathon.Telemetry.Metrics.Tally.{Tallied, bump, record_session-Tallied}
use iicpc_summer_hackathon.Telemetry.Metrics.Counts.{
  count_of, flagged_of, orders_after, violations_after, orders_after-lem, violations_after-lem,
  orders_after-append, violations_after-append, count_of-le,
}

module _ {F : Type 0} ⦃fl : Float64 F⦄ where
  module _ (decode : String → Option (TelemetryEvent F)) where
    -- The verdicts on the events of the messages.
    abbrev pub verdicts : Validator F → List Message → List (TelemetryEvent F)
    verdicts v msgs = (validate_all v (decoded decode msgs)).0

    -- The sessions after a message: as its verdict, if any, adds to them.
    abbrev Added :
        (String → ℕ) → (String → ℕ) → List (TelemetryEvent F) → Dict SessionMetrics → Type 0
    Added f g [] sessions = Tallied f g sessions
    Added f g (e ∷ es) sessions =
        Added (bump f e.session_id true) (bump g e.session_id e.violation) es sessions

    consume-Added :
        (f g : String → ℕ) (msg : Message) (c : Consumer F)
        → IsDraw msg.draw
        → Tallied f g c.sessions
        → ((s : String) → f s + 1 < 9223372036854775808)
        → (c' : Consumer F) × (consume decode msg c ≡ some c')
          × (c'.validator ≡ (validate_all c.validator (decoded decode (msg ∷ []))).1)
          × Added f g (verdicts c.validator (msg ∷ [])) c'.sessions
    unfolding consume process validate_all
    consume-Added f g msg c d h lt = cases (decode msg.value) refl
      where
        cases :
            (o : Option (TelemetryEvent F))
            → decode msg.value ≡ o
            → (c' : Consumer F) × (consume decode msg c ≡ some c')
              × (c'.validator ≡ (validate_all c.validator (decoded decode (msg ∷ []))).1)
              × Added f g (verdicts c.validator (msg ∷ [])) c'.sessions
        cases none e = (
          commit decode msg c,
          rw (e, consume),
          sym (ap (λ o. (validate_all c.validator (or_skip decode o [])).1) e),
          subst (λ o. Added f g (validate_all c.validator (or_skip decode o [])).0 c.sessions)
              (sym e) h,
        )
        cases (some ev) e =
            let (ev', v) = validate c.validator ev in
            let (sessions, recorded, w) =
              record_session-Tallied f g msg.draw msg.now c.sessions ev'.session_id ev'.latency_ns
                ev'.violation d h (lt ev'.session_id) in
            let after : Consumer F = commit decode msg (record c {
              validator = v;
              ts_writer = store decode msg.clock ev' c.ts_writer;
              sessions = sessions;
            }) in
            (
              after,
              rw (e, consume)
                  (ap
                    (λ o. o >>= λ found. some (
                      commit decode msg (record c {
                        validator = v;
                        ts_writer = store decode msg.clock ev' c.ts_writer;
                        sessions = found;
                      })))
                    recorded),
              sym (ap (λ o. (validate_all c.validator (or_skip decode o [])).1) e),
              subst (λ o. Added f g (validate_all c.validator (or_skip decode o [])).0 sessions)
                  (sym e) w,
            )

    Added-Tallied :
        (f g : String → ℕ) (es : List (TelemetryEvent F)) (sessions : Dict SessionMetrics)
        → Added f g es sessions
        → Tallied (orders_after f es) (violations_after g es) sessions
    Added-Tallied f g [] sessions a = a
    Added-Tallied f g (e ∷ es) sessions a =
        Added-Tallied (bump f e.session_id true) (bump g e.session_id e.violation) es sessions a

    verdicts-cons :
        (v : Validator F) (msg : Message) (msgs : List Message)
        → verdicts v (msg ∷ msgs)
          ≡ verdicts v (msg ∷ []) ++ verdicts (validate_all v (decoded decode (msg ∷ []))).1 msgs
    unfolding validate_all
    verdicts-cons v msg msgs = cases (decode msg.value)
      where
        cases :
            (o : Option (TelemetryEvent F))
            → (validate_all v (or_skip decode o (decoded decode msgs))).0
              ≡ (validate_all v (or_skip decode o [])).0
                ++ verdicts (validate_all v (or_skip decode o [])).1 msgs
        cases none = refl
        cases (some e) = refl

    -- A message adds at most one order to a session.
    length-verdicts : (v : Validator F) (msg : Message) → length (verdicts v (msg ∷ [])) ≤ 1
    unfolding validate_all
    length-verdicts v msg = cases (decode msg.value)
      where
        cases :
            (o : Option (TelemetryEvent F)) → length (validate_all v (or_skip decode o [])).0 ≤ 1
        cases none = omega arith
        cases (some e) = omega arith

    joined :
        (f g : String → ℕ) (v : Validator F) (msg : Message) (msgs : List Message)
        (sessions : Dict SessionMetrics)
        → let first = verdicts v (msg ∷ []) in
          let rest = verdicts (validate_all v (decoded decode (msg ∷ []))).1 msgs in
          Tallied
            (orders_after (orders_after f first) rest)
            (violations_after (violations_after g first) rest)
            sessions
          → let all = verdicts v (msg ∷ msgs) in
            Tallied (orders_after f all) (violations_after g all) sessions
    joined f g v msg msgs sessions h =
        let first = verdicts v (msg ∷ []) in
        let rest = verdicts (validate_all v (decoded decode (msg ∷ []))).1 msgs in
        let split = verdicts-cons v msg msgs in
        subst₂ (λ x y. Tallied x y sessions)
          (sym (ap (orders_after f) split ∙ orders_after-append f first rest))
          (sym (ap (violations_after g) split ∙ violations_after-append g first rest)) h

    run-Tallied :
        (fs : List Fetched) (n : ℕ) (f g : String → ℕ) (c : Consumer F)
        → All (λ msg. IsDraw msg.draw) (received decode fs)
        → Tallied f g c.sessions
        → ((s : String) → f s ≤ n)
        → n + length (received decode fs) < 9223372036854775808
        → (c' : Consumer F) × (run decode fs c ≡ some c')
          × (let all = verdicts c.validator (received decode fs) in
              Tallied (orders_after f all) (violations_after g all) c'.sessions)
    unfolding run validate_all
    run-Tallied [] n f g c d h le lt = (c, refl, h)
    run-Tallied (failed true ∷ rest) n f g c d h le lt = (c, refl, h)
    run-Tallied (failed false ∷ rest) n f g c d h le lt = run-Tallied rest n f g c d h le lt
    run-Tallied (message msg ∷ rest) n f g c d h le lt =
        let (c', consumed, v, added) =
          consume-Added f g msg c d.0 h (λ s. omega (arith, le s, lt)) in
        let first = verdicts c.validator (msg ∷ []) in
        let at_most : (s : String) → orders_after f first s ≤ n + 1 = λ s. omega (
          arith,
          orders_after-lem f first s,
          count_of-le s first,
          length-verdicts c.validator msg,
          le s,
        ) in
        let (last, ran, tallied) =
          run-Tallied rest (n + 1) (orders_after f first) (violations_after g first) c' d.1
            (Added-Tallied f g first c'.sessions added) at_most (omega (arith, lt)) in
        (
          last,
          ap (λ o. o >>= run decode rest) consumed ∙ ran,
          joined f g c.validator msg (received decode rest) last.sessions (
              subst
                (λ w.
                  let later = verdicts w (received decode rest) in
                  Tallied (orders_after (orders_after f first) later)
                    (violations_after (violations_after g first) later) last.sessions)
                v tallied),
        )

    no_sessions-Tallied : Tallied (λ s. 0) (λ s. 0) []
    unfolding lookup
    no_sessions-Tallied s now = (
      0,
      record {
        total = refl;
        violations = refl;
        bounded = omega arith;
        filled = omega arith;
        kept = tt;
      },
    )

    -- While fewer than 2^63 messages come, and the generator answers within its bounds, the loop runs
    -- without a panic. From a consumer that has no metrics yet it leaves for every session exactly the
    -- tally of the validator's verdicts on the events that decode: as many orders as it has verdicts, and
    -- as many violations as it has flagged ones, however the sessions' messages interleave.
    pub run_tallies :
        (fs : List Fetched) (c : Consumer F)
        → c.sessions ≡ []
        → All (λ msg. IsDraw msg.draw) (received decode fs)
        → length (received decode fs) < 9223372036854775808
        → (c' : Consumer F) × (run decode fs c ≡ some c')
          × ((s : String) (now : ℤ)
              → ((session_metrics now c'.sessions s).total_orders
                  ≡ pos (count_of s (verdicts c.validator (received decode fs))))
                × ((session_metrics now c'.sessions s).violations
                    ≡ pos (flagged_of s (verdicts c.validator (received decode fs)))))
    run_tallies fs c empty d lt =
        let all = verdicts c.validator (received decode fs) in
        let (c', ran, tallied) =
          run-Tallied fs 0 (λ s. 0) (λ s. 0) c d
            (subst (Tallied (λ s. 0) (λ s. 0)) (sym empty) no_sessions-Tallied) (λ s. omega arith)
            (omega (arith, lt)) in
        (
          c',
          ran,
          λ s now.
              let (positive, counted) = tallied s now in
              (
                counted.total ∙ ap pos (orders_after-lem (λ s. 0) all s ∙ omega arith),
                counted.violations ∙ ap pos (violations_after-lem (λ s. 0) all s ∙ omega arith),
              ),
        )
