-- ===== src/Orchestrator/Aggregation.antt =====
-- metricsAggLoop and the invariants of the calls.
use iicpc_summer_hackathon.Prelude.{
  String, refl, inl, inr, List, [], ◌∷◌, Option, none, some, Option-cases,
}
use iicpc_summer_hackathon.Prelude.Int.{ℤ}
use iicpc_summer_hackathon.Prelude.Dict.{Dict, lookup, AllValues-insert}
use iicpc_summer_hackathon.Prelude.Float.{Float64}
use iicpc_summer_hackathon.Orchestrator.State.{Orchestrator}
use iicpc_summer_hackathon.Orchestrator.Handlers.{
  with_metrics, aggregate, aggregate_each, aggregate_tick, running_ids,
}
use iicpc_summer_hackathon.Orchestrator.Registry.{WellFormed}
use iicpc_summer_hackathon.Orchestrator.Channels.{same_registry-WellFormed}
use iicpc_summer_hackathon.Orchestrator.Statuses.{Timed, AllTimed}

module _ {F : Type 0} ⦃fl : Float64 F⦄ (scan_float : String → Option F)
    (scan_int : String → Option ℤ) where
  aggregate-AllTimed :
      (sid : String) (hash : Option (Dict String)) (o : Orchestrator F)
      → AllTimed o
      → AllTimed (aggregate scan_float scan_int sid hash o)
  unfolding aggregate
  aggregate-AllTimed sid none o h = h
  aggregate-AllTimed sid (some []) o h = h
  aggregate-AllTimed sid (some (v ∷ vals)) o h = elim (Option-cases (lookup sid o.sessions)) [
    | inl e ↦ rw (e, aggregate) h
    | inr (s, e) ↦
        rw (e, aggregate)
          (AllValues-insert Timed sid (with_metrics scan_float scan_int (v ∷ vals) s) o.sessions
            (h sid s e) h)
  ]

  aggregate-WellFormed :
      (sid : String) (hash : Option (Dict String)) (o : Orchestrator F)
      → WellFormed o
      → WellFormed (aggregate scan_float scan_int sid hash o)
  unfolding aggregate
  aggregate-WellFormed sid none o h = h
  aggregate-WellFormed sid (some []) o h = h
  aggregate-WellFormed sid (some (v ∷ vals)) o h = elim (Option-cases (lookup sid o.sessions)) [
    | inl e ↦ rw (e, aggregate) h
    | inr (s, e) ↦ rw (e, aggregate) (same_registry-WellFormed o _ refl refl h)
  ]

  -- A tick leaves the workers, their channels and the statuses and times of the sessions in order.
  pub aggregate_tick-kept :
      (hashes : String → Option (Dict String)) (o : Orchestrator F)
      → AllTimed o
      → WellFormed o
      → AllTimed (aggregate_tick scan_float scan_int hashes o)
        × WellFormed (aggregate_tick scan_float scan_int hashes o)
  unfolding aggregate_tick
  aggregate_tick-kept hashes o h w = go (running_ids scan_float scan_int o.sessions) o h w
    where
      go :
          (sids : List String) (o : Orchestrator F)
          → AllTimed o
          → WellFormed o
          → AllTimed (aggregate_each scan_float scan_int sids hashes o)
            × WellFormed (aggregate_each scan_float scan_int sids hashes o)
      go [] o h w = (h, w)
      go (sid ∷ sids) o h w =
          go sids _ (aggregate-AllTimed sid _ o h) (aggregate-WellFormed sid _ o w)
