-- ===== src/Telemetry/Consumer/Totality.antt =====
-- The consumer's loop over what the broker hands out.
use iicpc_summer_hackathon.Prelude.{
  ℕ, ◌+◌, ◌≤◌, ◌<◌, String, ◌≡◌, refl, sym, ap, ◌∙◌, Bool, true, false, List, [], ◌∷◌, ◌++◌, map,
  append_assoc, append-nil, Option, none, some, arith, All, length, ◌>>=◌,
}
use iicpc_summer_hackathon.Prelude.Int.{ℤ}
use iicpc_summer_hackathon.Prelude.Dict.{Dict, AllValues, AllValues-insert, lookup, insert}
use iicpc_summer_hackathon.Prelude.Float.{Float64}
use iicpc_summer_hackathon.Telemetry.Event.{TelemetryEvent}
use iicpc_summer_hackathon.Telemetry.Validator.{Validator, validate}
use iicpc_summer_hackathon.Telemetry.Validator.Isolation.{validate_all}
use iicpc_summer_hackathon.Telemetry.Metrics.{
  SessionMetrics, new_metrics, session_metrics, record_session,
}
use iicpc_summer_hackathon.Telemetry.Metrics.Reservoir.{IsDraw, Counted, record_order-Counted}
use iicpc_summer_hackathon.Telemetry.Consumer.{
  Message, Fetched, failed, message, Consumer, commit, store, process, consume, run,
}

-- A session's metrics after at most `n` orders.
pub record Within (n : ℕ) (m : SessionMetrics) : Type 0 where
  pub orders : ℕ
  pub violated : ℕ
  pub positive : ℕ
  pub counted : Counted (λ _. Unit {0}) m orders violated positive
  pub at_most : orders ≤ n

abbrev pub AllWithin : ℕ → Dict SessionMetrics → Type 0
AllWithin n = AllValues (Within n)

new_metrics-Within : (n : ℕ) (now : ℤ) → Within n (new_metrics now)
new_metrics-Within n now = record {
  orders = 0;
  violated = 0;
  positive = 0;
  counted = record {
    total = refl;
    violations = refl;
    bounded = omega arith;
    filled = omega arith;
    kept = tt;
  };
  at_most = omega arith;
}

session_metrics-Within :
    (n : ℕ) (now : ℤ) (sessions : Dict SessionMetrics) (s : String)
    → AllWithin n sessions
    → Within n (session_metrics now sessions s)
session_metrics-Within n now sessions s h = cases (lookup s sessions) refl
  where
    cases :
        (o : Option SessionMetrics)
        → lookup s sessions ≡ o
        → Within n (elim o [ some m ↦ m | none ↦ new_metrics now ])
    cases none e = new_metrics-Within n now
    cases (some m) e = h s m e

Within-suc : (n : ℕ) (m : SessionMetrics) → Within n m → Within (n + 1) m
Within-suc n m w = record {
  orders = w.orders;
  violated = w.violated;
  positive = w.positive;
  counted = w.counted;
  at_most = omega (arith, w.at_most);
}

record_session-total :
    (n : ℕ) (draw : ℤ → ℤ) (now : ℤ) (sessions : Dict SessionMetrics) (s : String) (latency : ℤ)
    (b : Bool)
    → IsDraw draw
    → AllWithin n sessions
    → n + 1 < 9223372036854775808
    → (sessions' : Dict SessionMetrics) × (record_session draw now sessions s latency b
        ≡ some sessions')
      × AllWithin (n + 1) sessions'
unfolding record_session
record_session-total n draw now sessions s latency b d h lt =
    let old = session_metrics-Within n now sessions s h in
    let (m, recorded, c) =
      record_order-Counted (λ _. Unit {0})
        (record { latency = latency; violation = b; draw = draw }) (session_metrics now sessions s)
        old.orders old.violated old.positive d old.counted (omega (arith, old.at_most)) (λ _. tt) in
    (
      insert s m sessions,
      ap (λ o. o >>= λ m'. some (insert s m' sessions)) recorded,
      AllValues-insert (Within (n + 1)) s m sessions
          (record {
            orders = _;
            violated = _;
            positive = _;
            counted = c;
            at_most = omega (arith, old.at_most);
          })
          (λ k v e. Within-suc n v (h k v e)),
    )

module _ {F : Type 0} ⦃fl : Float64 F⦄ (decode : String → Option (TelemetryEvent F)) where
  -- The messages that the loop gets to: those before an error with the context done.
  abbrev pub received : List Fetched → List Message
  received [] = []
  received (failed true ∷ rest) = []
  received (failed false ∷ rest) = received rest
  received (message msg ∷ rest) = msg ∷ received rest

  abbrev pub or_skip : Option (TelemetryEvent F) → List (TelemetryEvent F) → List (TelemetryEvent F)
  or_skip none es = es
  or_skip (some e) es = e ∷ es

  abbrev pub decoded : List Message → List (TelemetryEvent F)
  decoded [] = []
  decoded (msg ∷ msgs) = or_skip (decode msg.value) (decoded msgs)

  abbrev pub offsets : List Message → List ℕ
  offsets = map (λ msg. msg.offset)

  -- What a message does to the parts of the consumer.
  record Consumed (n : ℕ) (msgs : List Message) (c c' : Consumer F) : Type 0 where
    committed : c'.committed ≡ c.committed ++ offsets msgs
    validated : c'.validator ≡ (validate_all c.validator (decoded msgs)).1
    within : AllWithin n c'.sessions

  consume-total :
      (n : ℕ) (msg : Message) (c : Consumer F)
      → IsDraw msg.draw
      → AllWithin n c.sessions
      → n + 1 < 9223372036854775808
      → (c' : Consumer F) × (consume decode msg c ≡ some c') × Consumed (n + 1) (msg ∷ []) c c'
  unfolding consume process validate_all
  consume-total n msg c d h lt = cases (decode msg.value) refl
    where
      cases :
          (o : Option (TelemetryEvent F))
          → decode msg.value ≡ o
          → (c' : Consumer F) × (consume decode msg c ≡ some c') × Consumed (n + 1) (msg ∷ []) c c'
      cases none e = (
        commit decode msg c,
        rw (e, consume),
        record {
          committed = refl;
          validated = sym (ap (λ o. (validate_all c.validator (or_skip o [])).1) e);
          within = λ k v q. Within-suc n v (h k v q);
        },
      )
      cases (some ev) e =
          let (ev', v) = validate c.validator ev in
          let (sessions, recorded, w) =
            record_session-total n msg.draw msg.now c.sessions ev'.session_id ev'.latency_ns
              ev'.violation d h lt in
          (
            commit decode msg (record c {
              validator = v;
              ts_writer = store decode msg.clock ev' c.ts_writer;
              sessions = sessions;
            }),
            rw (e, consume)
                (ap
                  (λ o. o >>= λ found. some (
                    commit decode msg (record c {
                      validator = v;
                      ts_writer = store decode msg.clock ev' c.ts_writer;
                      sessions = found;
                    })))
                  recorded),
            record {
              committed = refl;
              validated = sym (ap (λ o. (validate_all c.validator (or_skip o [])).1) e);
              within = w;
            },
          )

  validate_all-decoded :
      (v : Validator F) (msg : Message) (msgs : List Message)
      → (validate_all v (decoded (msg ∷ msgs))).1
        ≡ (validate_all (validate_all v (decoded (msg ∷ []))).1 (decoded msgs)).1
  unfolding validate_all
  validate_all-decoded v msg msgs = ground arith

  -- While fewer than 2^63 messages come, and the generator answers within its bounds, the loop runs
  -- without a panic through every message before the end of the context. It commits them all, once
  -- and in order, whether they decode or not, and leaves the validator as the events that decode
  -- make it, in their order.
  pub run-total :
      (fs : List Fetched) (n : ℕ) (c : Consumer F)
      → All (λ msg. IsDraw msg.draw) (received fs)
      → AllWithin n c.sessions
      → n + length (received fs) < 9223372036854775808
      → (c' : Consumer F) × (run decode fs c ≡ some c')
        × (c'.committed ≡ c.committed ++ offsets (received fs))
        × (c'.validator ≡ (validate_all c.validator (decoded (received fs))).1)
  unfolding run validate_all
  run-total [] n c d h lt = (c, refl, sym (append-nil c.committed), refl)
  run-total (failed true ∷ rest) n c d h lt = (c, refl, sym (append-nil c.committed), refl)
  run-total (failed false ∷ rest) n c d h lt = run-total rest n c d h lt
  run-total (message msg ∷ rest) n c d h lt =
      let (c', consumed, p) = consume-total n msg c d.0 h (omega arith) in
      let (last, ran, commits, validated) = run-total rest (n + 1) c' d.1 p.within (omega arith) in
      (
        last,
        ap (λ o. o >>= run decode rest) consumed ∙ ran,
        commits
            ∙ ap (λ l. l ++ offsets (received rest)) p.committed
            ∙ append_assoc c.committed (msg.offset ∷ []) (offsets (received rest)),
        validated
            ∙ ap (λ v. (validate_all v (decoded (received rest))).1) p.validated
            ∙ sym (validate_all-decoded c.validator msg (received rest)),
      )
