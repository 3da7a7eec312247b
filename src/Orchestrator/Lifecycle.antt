-- ===== src/Orchestrator/Lifecycle.antt =====
-- The status of sessions over the calls.
use iicpc_summer_hackathon.Prelude.{
  ℕ, ◌+◌, ◌<◌, String, ◌≡◌, refl, ap, ◌∙◌, sym, subst, List, [], ◌∷◌, some, arith, length,
}
use iicpc_summer_hackathon.Prelude.Int.{ℤ}
use iicpc_summer_hackathon.Prelude.Dict.{lookup, insert, lookup-insert_self}
use iicpc_summer_hackathon.Orchestrator.State.{
  running, BenchmarkSession, WorkerCmd, Orchestrator, offer,
}
use iicpc_summer_hackathon.Orchestrator.Sessions.{
  Dispatch, keys, start_cmd, bots_for, send_to, send_shares, dispatch_to_workers, mark_running,
  mark_done, stop_session,
}

module _ {F : Type 0} where
  sessions-send_to :
      (wid : String) (cmd : WorkerCmd) (o : Orchestrator F)
      → (send_to wid cmd o).sessions ≡ o.sessions
  unfolding send_to offer
  sessions-send_to wid cmd o = ground arith

  pub sessions-send_shares :
      (b : ℤ) (k : ℕ) (cmd : ℤ → WorkerCmd) (i : ℕ) (wids : List String) (o : Orchestrator F)
      → (send_shares b k cmd i wids o).sessions ≡ o.sessions
  unfolding send_shares
  sessions-send_shares b k cmd i [] o = refl
  sessions-send_shares b k cmd i (wid ∷ wids) o =
      sessions-send_shares b k cmd (i + 1) wids (send_to wid (cmd (bots_for b k i)) o)
      ∙ sessions-send_to wid (cmd (bots_for b k i)) o

  -- What a dispatch to at least one worker makes of the sessions.
  pub sessions-dispatch :
      (now : ℕ) (d : Dispatch) (o : Orchestrator F) (s : BenchmarkSession F)
      → 0 < length (keys o.workers)
      → lookup d.session_id o.sessions ≡ some s
      → (dispatch_to_workers now d o).0.sessions
        ≡ insert d.session_id (mark_running now d.bot_count s) o.sessions
  unfolding dispatch_to_workers
  sessions-dispatch now d o s w e =
      let o' =
        send_shares d.bot_count (length (keys o.workers)) (start_cmd d) 0 (keys o.workers) o in
      let same : o'.sessions ≡ o.sessions =
        sessions-send_shares d.bot_count _ (start_cmd d) 0 (keys o.workers) o in
      ground (arith, same)

  pub sessions-stop :
      (now : ℕ) (id : String) (o : Orchestrator F) (s : BenchmarkSession F)
      → lookup id o.sessions ≡ some s
      → ((stop_session now id o).sessions ≡ insert id (mark_done now s) o.sessions)
        × ((stop_session now id o).workers ≡ o.workers)
  unfolding stop_session
  sessions-stop now id o s e = (ground arith, ground arith)

  -- A stop that comes before the dispatch of a session is undone by it: with a worker registered, the
  -- session is running again after the dispatch, and it still has the time of its end.
  pub late_dispatch_revives :
      (stopped now : ℕ) (d : Dispatch) (o : Orchestrator F) (s : BenchmarkSession F)
      → lookup d.session_id o.sessions ≡ some s
      → 0 < length (keys o.workers)
      → (s' : BenchmarkSession F) × (lookup d.session_id
            (dispatch_to_workers now d (stop_session stopped d.session_id o)).0.sessions
          ≡ some s')
        × (s'.status ≡ running)
        × (s'.ended_at ≡ some stopped)
  late_dispatch_revives stopped now d o s e w =
      let o' = stop_session stopped d.session_id o in
      let (es, ew) = sessions-stop stopped d.session_id o s e in
      let found : lookup d.session_id o'.sessions ≡ some (mark_done stopped s) =
        ap (lookup d.session_id) es
        ∙ lookup-insert_self d.session_id (mark_done stopped s) o.sessions in
      (
        mark_running now d.bot_count (mark_done stopped s),
        ap (lookup d.session_id) (
              sessions-dispatch now d o' (mark_done stopped s)
                (subst (λ ws. 0 < length (keys ws)) (sym ew) w) found)
            ∙ lookup-insert_self d.session_id _ o'.sessions,
        refl,
        refl,
      )
