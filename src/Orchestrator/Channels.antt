-- ===== src/Orchestrator/Channels.antt =====
-- What each operation does to the workers and their channels.
use iicpc_summer_hackathon.Prelude.{
  ℕ, ◌+◌, ◌≤◌, String, ◌≡◌, refl, ap, ◌∙◌, sym, subst, inl, inr, List, [], ◌∷◌, Option, none, some,
  arith, if◌then◌else◌, str_eq, eq_iff, length, ◌==◌, Bool-cases, Option-cases,
}
use iicpc_summer_hackathon.Prelude.Int.{ℤ}
use iicpc_summer_hackathon.Prelude.Dict.{
  lookup, insert, has_key, lookup-insert, lookup-insert_self, IsMap, IsMap-insert, lookup-map,
  AllValues, AllValues-insert, AllValues-map,
}
use iicpc_summer_hackathon.Orchestrator.State.{
  WorkerInfo, WorkerCmd, WorkerHeartbeat, Orchestrator, offer, chan_capacity,
}
use iicpc_summer_hackathon.Orchestrator.Sessions.{
  Dispatch, keys, start_cmd, stop_cmd, send_to, send_shares, dispatch_to_workers, stop_session,
}
use iicpc_summer_hackathon.Orchestrator.Workers.{
  new_worker, touch_worker, register_worker, begin_poll, take_cmd, heard, update_worker,
  update_worker_heartbeat,
}
use iicpc_summer_hackathon.Orchestrator.Registry.{WellFormed, length-offer}

module _ {F : Type 0} where
  set_worker-WellFormed :
      (id : String) (w w' : WorkerInfo) (o : Orchestrator F)
      → lookup id o.workers ≡ some w
      → WellFormed o
      → WellFormed (record o { workers = insert id w' o.workers })
  set_worker-WellFormed id w w' o e h = record {
    unique = IsMap-insert id w' o.workers h.unique;
    agree = λ k. ground (arith, lookup-insert id k w' o.workers, eq_iff id k, h.agree k);
    capped = h.capped;
  }

  set_chan-WellFormed :
      (id : String) (ch ch' : List WorkerCmd) (o : Orchestrator F)
      → lookup id o.cmd_chans ≡ some ch
      → length ch' ≤ chan_capacity
      → WellFormed o
      → WellFormed (record o { cmd_chans = insert id ch' o.cmd_chans })
  set_chan-WellFormed id ch ch' o e le h = record {
    unique = h.unique;
    agree = λ k. ground (arith, lookup-insert id k ch' o.cmd_chans, eq_iff id k, h.agree k);
    capped = AllValues-insert (λ c. length c ≤ chan_capacity) id ch' o.cmd_chans le h.capped;
  }

  touch-WellFormed :
      (now : ℕ) (id : String) (o : Orchestrator F)
      → WellFormed o
      → WellFormed (touch_worker now id o)
  touch-WellFormed now id o h = cases (lookup id o.workers) refl
    where
      cases :
          (found : Option WorkerInfo)
          → lookup id o.workers ≡ found
          → WellFormed (elim found [
            | none ↦ o
            | some w ↦ record o { workers = insert id (record w { last_seen = now }) o.workers }
          ])
      cases none e = h
      cases (some w) e = set_worker-WellFormed id w (record w { last_seen = now }) o e h

  pub register-WellFormed :
      (now : ℕ) (id : String) (o : Orchestrator F) → WellFormed o → WellFormed (begin_poll now id o)
  unfolding begin_poll
  register-WellFormed now id o h = touch-WellFormed now id (register_worker now id o) (record {
    unique = IsMap-insert id _ o.workers h.unique;
    agree = λ k. ground (
      arith,
      lookup-insert id k (new_worker now id) o.workers,
      lookup-insert id k [] o.cmd_chans,
      h.agree k,
    );
    capped =
        AllValues-insert (λ ch. length ch ≤ chan_capacity) id [] o.cmd_chans (omega arith) h.capped;
  })

  -- The changes that leave the workers and their channels alone.
  pub same_registry-WellFormed :
      (o o' : Orchestrator F)
      → o'.workers ≡ o.workers
      → o'.cmd_chans ≡ o.cmd_chans
      → WellFormed o
      → WellFormed o'
  same_registry-WellFormed o o' ew ec h = record {
    unique = subst IsMap (sym ew) h.unique;
    agree = λ k. ap (has_key k) ew ∙ h.agree k ∙ sym (ap (has_key k) ec);
    capped = subst (AllValues (λ ch. length ch ≤ chan_capacity)) (sym ec) h.capped;
  }

  heartbeat-registry :
      (now : ℕ) (hb : WorkerHeartbeat) (o : Orchestrator F)
      → ((update_worker_heartbeat now hb o).workers ≡ (update_worker now hb o).workers)
        × ((update_worker_heartbeat now hb o).cmd_chans ≡ o.cmd_chans)
  unfolding update_worker_heartbeat
  heartbeat-registry now hb o = ground arith

  update_worker-WellFormed :
      (now : ℕ) (hb : WorkerHeartbeat) (o : Orchestrator F)
      → WellFormed o
      → WellFormed (update_worker now hb o)
  update_worker-WellFormed now hb o h = cases (lookup hb.worker_id o.workers) refl
    where
      cases :
          (found : Option WorkerInfo)
          → lookup hb.worker_id o.workers ≡ found
          → WellFormed (elim found [
            | none ↦ o
            | some w ↦ record o { workers = insert hb.worker_id (heard now hb w) o.workers }
          ])
      cases none e = h
      cases (some w) e = set_worker-WellFormed hb.worker_id w (heard now hb w) o e h

  chans-update_worker :
      (now : ℕ) (hb : WorkerHeartbeat) (o : Orchestrator F)
      → (update_worker now hb o).cmd_chans ≡ o.cmd_chans
  chans-update_worker now hb o = ground arith

  pub heartbeat-WellFormed :
      (now : ℕ) (hb : WorkerHeartbeat) (o : Orchestrator F)
      → WellFormed o
      → WellFormed (update_worker_heartbeat now hb o)
  heartbeat-WellFormed now hb o h =
      let (ew, ec) = heartbeat-registry now hb o in
      same_registry-WellFormed (update_worker now hb o) _ ew
        (ec ∙ sym (chans-update_worker now hb o)) (update_worker-WellFormed now hb o h)

  pub take_cmd-WellFormed :
      (id : String) (o : Orchestrator F) → WellFormed o → WellFormed (take_cmd id o).1
  unfolding take_cmd
  take_cmd-WellFormed id o h = cases (lookup id o.cmd_chans) refl
    where
      cases :
          (found : Option (List WorkerCmd))
          → lookup id o.cmd_chans ≡ found
          → WellFormed (
              (elim found as (λ _. Option WorkerCmd × Orchestrator F) [
                | none ↦ (none, o)
                | some [] ↦ (none, o)
                | some (cmd ∷ ch) ↦ (some cmd, record o { cmd_chans = insert id ch o.cmd_chans })
              ]).1)
      cases none e = h
      cases (some []) e = h
      cases (some (cmd ∷ ch)) e =
          set_chan-WellFormed id (cmd ∷ ch) ch o e (omega (arith, h.capped id (cmd ∷ ch) e)) h

  send_to-WellFormed :
      (wid : String) (cmd : WorkerCmd) (o : Orchestrator F)
      → WellFormed o
      → WellFormed (send_to wid cmd o)
  unfolding send_to
  send_to-WellFormed wid cmd o h = elim (Option-cases (lookup wid o.cmd_chans)) [
    | inl e ↦ rw (e, send_to) h
    | inr (ch, e) ↦
        rw (e, send_to)
          (elim (Bool-cases (offer cmd ch).0) [
            | inl room ↦
                rw room
                  (set_chan-WellFormed wid ch _ o e (length-offer cmd ch (h.capped wid ch e)) h)
            | inr full ↦ rw full (same_registry-WellFormed o _ refl refl h)
          ])
  ]

  send_shares-WellFormed :
      (b : ℤ) (k : ℕ) (cmd : ℤ → WorkerCmd) (i : ℕ) (wids : List String) (o : Orchestrator F)
      → WellFormed o
      → WellFormed (send_shares b k cmd i wids o)
  unfolding send_shares
  send_shares-WellFormed b k cmd i [] o h = h
  send_shares-WellFormed b k cmd i (wid ∷ wids) o h =
      send_shares-WellFormed b k cmd (i + 1) wids _ (send_to-WellFormed wid _ o h)

  pub dispatch-WellFormed :
      (now : ℕ) (d : Dispatch) (o : Orchestrator F)
      → WellFormed o
      → WellFormed (dispatch_to_workers now d o).0
  unfolding dispatch_to_workers
  dispatch-WellFormed now d o h = elim (Bool-cases (length (keys o.workers) == 0)) [
    | inl idle ↦ rw idle (same_registry-WellFormed o _ refl refl h)
    | inr busy ↦
        let o' =
          send_shares d.bot_count (length (keys o.workers)) (start_cmd d) 0 (keys o.workers) o in
        rw busy (
          same_registry-WellFormed o' _ (ground arith) (ground arith)
            (send_shares-WellFormed d.bot_count _ (start_cmd d) 0 (keys o.workers) o h))
  ]

  pub stop_session-WellFormed :
      (now : ℕ) (id : String) (o : Orchestrator F)
      → WellFormed o
      → WellFormed (stop_session now id o)
  unfolding stop_session
  stop_session-WellFormed now id o h = elim (Option-cases (lookup id o.sessions)) [
    | inl e ↦ rw (e, stop_session) h
    | inr (s, e) ↦
        rw (e, stop_session)
          (record {
            unique = h.unique;
            agree = λ k.
                ground
                  (arith, lookup-map (λ ch. (offer (stop_cmd id) ch).1) k o.cmd_chans, h.agree k);
            capped = AllValues-map _ _ _ o.cmd_chans (λ ch. length-offer (stop_cmd id) ch) h.capped;
          })
  ]

  take_cmd_empty :
      (id : String) (o : Orchestrator F)
      → lookup id o.cmd_chans ≡ some []
      → (take_cmd id o).0 ≡ none
  unfolding take_cmd
  take_cmd_empty id o e = ground arith

  -- When a worker polls anew its channel is empty, whatever commands waited in it, and it takes no
  -- command from it; no other worker's channel changes.
  pub begin_poll_drops :
      (now : ℕ) (id k : String) (o : Orchestrator F)
      → (lookup k (begin_poll now id o).cmd_chans
          ≡ (if str_eq id k then some [] else lookup k o.cmd_chans))
        × ((take_cmd id (begin_poll now id o)).0 ≡ none)
  unfolding begin_poll take_cmd
  begin_poll_drops now id k o =
      (ground (arith, lookup-insert id k [] o.cmd_chans), take_cmd_empty id _ empty)
    where
      empty : lookup id (begin_poll now id o).cmd_chans ≡ some []
      empty = ground (arith, lookup-insert_self id [] o.cmd_chans)
