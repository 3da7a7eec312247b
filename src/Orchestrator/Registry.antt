-- ===== src/Orchestrator/Registry.antt =====
-- The registered workers and their channels, and the removal of the silent ones.
use iicpc_summer_hackathon.Prelude.{
  ℕ, ◌≤◌, String, ◌≡◌, refl, Bool, true, false, ◌&&◌, List, [], ◌∷◌, Option, none, some, arith,
  if◌then◌else◌, str_eq, eq_iff, length, length-append,
}
use iicpc_summer_hackathon.Prelude.Dict.{
  lookup, has_key, lookup-delete, IsMap, IsMap-delete, AllValues,
}
use iicpc_summer_hackathon.Orchestrator.State.{
  WorkerInfo, WorkerCmd, Orchestrator, offer, chan_capacity,
}
use iicpc_summer_hackathon.Orchestrator.Workers.{timed_out, drop_if, remove_timed_out, reconcile}

-- What is left of a worker's entry after a round of reconciliation.
abbrev pub kept {ℓ} : {A : Type ℓ} → ℕ → Option WorkerInfo → Option A → Option A
kept now none r = r
kept now (some w) r = if timed_out now w then none else r

pub length-offer :
    (cmd : WorkerCmd) (ch : List WorkerCmd)
    → length ch ≤ chan_capacity
    → length (offer cmd ch).1 ≤ chan_capacity
unfolding offer
length-offer cmd ch h = ground (arith, length-append ch (cmd ∷ []))

module _ {F : Type 0} where
  -- The worker map has no key twice, a worker has a channel exactly when it is registered, and no
  -- channel holds more than its buffer.
  pub record WellFormed (o : Orchestrator F) : Type 0 where
    pub unique : IsMap o.workers
    pub agree : (k : String) → has_key k o.workers ≡ has_key k o.cmd_chans
    pub capped : AllValues (λ ch. length ch ≤ chan_capacity) o.cmd_chans

  drop_if_lem :
      (late : Bool) (id : String) (o : Orchestrator F) (k : String)
      → (lookup k (drop_if late id o).workers
          ≡ (if late && str_eq id k then none else lookup k o.workers))
        × (lookup k (drop_if late id o).cmd_chans
            ≡ (if late && str_eq id k then none else lookup k o.cmd_chans))
  unfolding drop_if
  drop_if_lem true id o k = (lookup-delete id k o.workers, lookup-delete id k o.cmd_chans)
  drop_if_lem false id o k = (refl, refl)

  drop_if-IsMap :
      (late : Bool) (id : String) (o : Orchestrator F)
      → IsMap o.workers
      → IsMap (drop_if late id o).workers
  unfolding drop_if
  drop_if-IsMap true id o h = IsMap-delete id o.workers h
  drop_if-IsMap false id o h = h

  remove_timed_out_lem :
      (now : ℕ) (ws : List (String × WorkerInfo)) (o : Orchestrator F) (k : String)
      → IsMap ws
      → (lookup k (remove_timed_out now ws o).workers ≡ kept now (lookup k ws) (lookup k o.workers))
        × (lookup k (remove_timed_out now ws o).cmd_chans
            ≡ kept now (lookup k ws) (lookup k o.cmd_chans))
  unfolding remove_timed_out lookup
  remove_timed_out_lem now [] o k h = (refl, refl)
  remove_timed_out_lem now ((id, w) ∷ rest) o k h = ground (
    arith,
    remove_timed_out_lem now rest (drop_if (timed_out now w) id o) k h.1,
    drop_if_lem (timed_out now w) id o k,
    h.0,
    eq_iff id k,
  )

  remove_timed_out-IsMap :
      (now : ℕ) (ws : List (String × WorkerInfo)) (o : Orchestrator F)
      → IsMap o.workers
      → IsMap (remove_timed_out now ws o).workers
  unfolding remove_timed_out
  remove_timed_out-IsMap now [] o h = h
  remove_timed_out-IsMap now ((id, w) ∷ rest) o h =
      remove_timed_out-IsMap now rest _ (drop_if-IsMap (timed_out now w) id o h)

  -- A round of reconciliation removes exactly the workers not heard of for more than 60 seconds, with
  -- their channels; every other worker, and its channel with all that waits in it, stays.
  pub reconcile_lem :
      (now : ℕ) (o : Orchestrator F) (k : String)
      → WellFormed o
      → (lookup k (reconcile now o).workers ≡ kept now (lookup k o.workers) (lookup k o.workers))
        × (lookup k (reconcile now o).cmd_chans
            ≡ kept now (lookup k o.workers) (lookup k o.cmd_chans))
  unfolding reconcile
  reconcile_lem now o k h = remove_timed_out_lem now o.workers o k h.unique

  pub reconcile-WellFormed :
      (now : ℕ) (o : Orchestrator F) → WellFormed o → WellFormed (reconcile now o)
  unfolding reconcile
  reconcile-WellFormed now o h = record {
    unique = remove_timed_out-IsMap now o.workers o h.unique;
    agree = λ k. ground (arith, remove_timed_out_lem now o.workers o k h.unique, h.agree k);
    capped =
        λ k ch e. h.capped k ch (ground (arith, remove_timed_out_lem now o.workers o k h.unique));
  }
