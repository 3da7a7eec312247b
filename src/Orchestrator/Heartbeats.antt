-- ===== src/Orchestrator/Heartbeats.antt =====
-- What heartbeats make of a session's count of orders.
use iicpc_summer_hackathon.Prelude.{
  ℕ, ◌+◌, ◌-◌, ◌≤◌, ◌<◌, String, ◌≡◌, refl, ap, ◌∙◌, sym, subst, ◌≢◌, List, [], ◌∷◌, Option, none,
  some, arith, eq_iff,
}
use iicpc_summer_hackathon.Prelude.Int.{ℤ, pos, add64, sub64}
use iicpc_summer_hackathon.Prelude.Dict.{lookup, lookup-insert_self}
use iicpc_summer_hackathon.Orchestrator.State.{BenchmarkSession, WorkerHeartbeat, Orchestrator}
use iicpc_summer_hackathon.Orchestrator.Workers.{
  or_zero, report_key, credit, credit_session, update_worker, update_worker_heartbeat,
}

abbrev report : WorkerHeartbeat → ℕ → WorkerHeartbeat
report hb sent = record hb { orders_sent = pos sent }

module _ {F : Type 0} where
  -- The orders counted for a session, and the last total that a worker reported for it.
  abbrev pub counted : String → Orchestrator F → Option ℤ
  counted s o = elim (lookup s o.sessions) [ none ↦ none | some sess ↦ some sess.orders_sent ]

  abbrev pub last_report : WorkerHeartbeat → Orchestrator F → ℤ
  last_report hb o = or_zero (lookup (report_key hb) o.last_reported_orders)

  -- The state of one worker's reports for one session: what is counted, and the last total.
  pub record Ledger (hb : WorkerHeartbeat) (o : Orchestrator F) (total last : ℕ) : Type 0 where
    pub total_counted : counted hb.session_id o ≡ some (pos total)
    pub last_reported : last_report hb o ≡ pos last

  -- The session after a report, and the state after it.
  credited :
      (hb : WorkerHeartbeat) (s : BenchmarkSession F) (last sent total : ℕ)
      → hb.orders_sent ≡ pos sent
      → s.orders_sent ≡ pos total
      → total + sent < 9223372036854775808
      → last < 9223372036854775808
      → (credit (sub64 hb.orders_sent (pos last)) s).orders_sent ≡ pos (total + (sent - last))
  unfolding add64 sub64
  credited hb s last sent total e t h h' = ground arith

  pub heartbeat-eq :
      (now : ℕ) (hb : WorkerHeartbeat) (o : Orchestrator F) (s : BenchmarkSession F)
      → hb.session_id ≢ ""
      → lookup hb.session_id o.sessions ≡ some s
      → update_worker_heartbeat now hb o ≡ credit_session hb s (update_worker now hb o)
  unfolding update_worker_heartbeat
  heartbeat-eq now hb o s ns e = ground (arith, eq_iff hb.session_id "")

  pub sessions-update_worker :
      (now : ℕ) (hb : WorkerHeartbeat) (o : Orchestrator F)
      → ((update_worker now hb o).sessions ≡ o.sessions)
        × ((update_worker now hb o).last_reported_orders ≡ o.last_reported_orders)
  sessions-update_worker now hb o = ground arith

  heartbeat-Ledger :
      (now : ℕ) (hb : WorkerHeartbeat) (o : Orchestrator F) (total last sent : ℕ)
      → hb.session_id ≢ ""
      → hb.orders_sent ≡ pos sent
      → Ledger hb o total last
      → total + sent < 9223372036854775808
      → last < 9223372036854775808
      → Ledger hb (update_worker_heartbeat now hb o) (total + (sent - last)) sent
  heartbeat-Ledger now hb o total last sent ns e l h h' =
      cases (lookup hb.session_id o.sessions) refl
    where
      cases :
          (found : Option (BenchmarkSession F))
          → lookup hb.session_id o.sessions ≡ found
          → Ledger hb (update_worker_heartbeat now hb o) (total + (sent - last)) sent
      cases none q = absurd (ground (arith, l.total_counted))
      cases (some s) q =
          let (ss, ls) = sessions-update_worker now hb o in
          let delta = sub64 hb.orders_sent (last_report hb (update_worker now hb o)) in
          let last_eq : last_report hb (update_worker now hb o) ≡ pos last =
            ap (λ m. or_zero (lookup (report_key hb) m)) ls ∙ l.last_reported in
          let sess_eq : s.orders_sent ≡ pos total = ground (arith, l.total_counted) in
          subst (λ st. Ledger hb st (total + (sent - last)) sent)
            (sym (heartbeat-eq now hb o s ns q))
            (record {
              total_counted =
                  ap (λ r. elim r [ none ↦ none | some sess ↦ some sess.orders_sent ])
                    (lookup-insert_self hb.session_id (credit delta s)
                      (update_worker now hb o).sessions)
                  ∙ ap some (
                      ap (λ z. (credit (sub64 hb.orders_sent z) s).orders_sent) last_eq
                      ∙ credited hb s last sent total e sess_eq h h');
              last_reported =
                  ap or_zero (
                    lookup-insert_self (report_key hb) hb.orders_sent
                      (update_worker now hb o).last_reported_orders)
                  ∙ e;
            })

  -- The heartbeats of one worker for one session, with these times and totals.
  pub heartbeats : WorkerHeartbeat → List (ℕ × ℕ) → Orchestrator F → Orchestrator F
  heartbeats hb [] o = o
  heartbeats hb ((now, sent) ∷ rest) o =
      heartbeats hb rest (update_worker_heartbeat now (report hb sent) o)

-- What the totals grow by in all, a fall counting as nothing.
abbrev pub growth : ℕ → List (ℕ × ℕ) → ℕ
growth last [] = 0
growth last ((now, sent) ∷ rest) = (sent - last) + growth sent rest

-- The last total.
abbrev pub final : ℕ → List (ℕ × ℕ) → ℕ
final last [] = last
final last ((now, sent) ∷ rest) = final sent rest

-- No total is less than the one before.
abbrev pub IsRising : ℕ → List (ℕ × ℕ) → Type 0
IsRising last [] = Unit {0}
IsRising last ((now, sent) ∷ rest) = (last ≤ sent) × IsRising sent rest

-- The totals of the reports, and the sum that they lead to, fit an int64.
abbrev pub Fits : ℕ → ℕ → List (ℕ × ℕ) → Type 0
Fits total last [] = Unit {0}
Fits total last ((now, sent) ∷ rest) =
    (total + sent < 9223372036854775808) × Fits (total + (sent - last)) sent rest

growth-IsRising :
    (last : ℕ) (rs : List (ℕ × ℕ)) → IsRising last rs → last + growth last rs ≡ final last rs
growth-IsRising last [] r = omega arith
growth-IsRising last ((now, sent) ∷ rest) r = omega (arith, growth-IsRising sent rest r.1, r.0)

module _ {F : Type 0} where
  report-Ledger :
      (hb : WorkerHeartbeat) (sent : ℕ) (o : Orchestrator F) (total last : ℕ)
      → Ledger hb o total last
      → Ledger (report hb sent) o total last
  report-Ledger hb sent o total last l = record {
    total_counted = l.total_counted;
    last_reported = l.last_reported;
  }

  Ledger-at :
      (hb : WorkerHeartbeat) (o : Orchestrator F) (total last total' : ℕ)
      → Ledger hb o total last
      → total ≡ total'
      → Ledger hb o total' last
  Ledger-at hb o total last total' l e = record {
    total_counted = l.total_counted ∙ ap (λ n. some (pos n)) e;
    last_reported = l.last_reported;
  }

  -- A worker's heartbeats for a session, whatever totals they report, add to the session's orders
  -- exactly what the totals grow by from one report to the next.
  pub heartbeats-Ledger :
      (hb : WorkerHeartbeat) (rs : List (ℕ × ℕ)) (o : Orchestrator F) (total last : ℕ)
      → hb.session_id ≢ ""
      → Ledger hb o total last
      → last < 9223372036854775808
      → Fits total last rs
      → Ledger hb (heartbeats hb rs o) (total + growth last rs) (final last rs)
  unfolding heartbeats
  heartbeats-Ledger hb [] o total last ns l h f = Ledger-at hb o total last _ l (omega arith)
  heartbeats-Ledger hb ((now, sent) ∷ rest) o total last ns l h f =
      let step =
        heartbeat-Ledger now (report hb sent) o total last sent ns refl
          (report-Ledger hb sent o total last l) f.0 h in
      let done =
        heartbeats-Ledger hb rest (update_worker_heartbeat now (report hb sent) o)
          (total + (sent - last)) sent ns
          (record { total_counted = step.total_counted; last_reported = step.last_reported })
          (omega (arith, f.0)) f.1 in
      Ledger-at hb _ _ _ _
        (record { total_counted = done.total_counted; last_reported = done.last_reported })
        (omega arith)

  -- Where the totals never fall, a session that had counted everything up to the last report has
  -- counted everything up to the newest one, however often a total is repeated.
  pub heartbeats_exact :
      (hb : WorkerHeartbeat) (rs : List (ℕ × ℕ)) (o : Orchestrator F) (others last : ℕ)
      → hb.session_id ≢ ""
      → Ledger hb o (others + last) last
      → last < 9223372036854775808
      → Fits (others + last) last rs
      → IsRising last rs
      → counted hb.session_id (heartbeats hb rs o) ≡ some (pos (others + final last rs))
  heartbeats_exact hb rs o others last ns l h f r =
      (heartbeats-Ledger hb rs o (others + last) last ns l h f).total_counted
      ∙ ap (λ n. some (pos n)) (omega (arith, growth-IsRising last rs r))
