-- ===== src/Submission/Records/NameTaken.antt =====
-- A team whose name another team's row holds.
use iicpc_summer_hackathon.Prelude.{String, ◌≡◌, refl, true, false, none, some, arith, str_eq}
use iicpc_summer_hackathon.Prelude.Int.{ℤ}
use iicpc_summer_hackathon.Prelude.Dict.{lookup}
use iicpc_summer_hackathon.Submission.Records.{
  SubmissionRecord, Db, CreateRun, any, teams_after, try_insert, create_submission,
}

module _ (run : CreateRun) (now : ℤ) (s : SubmissionRecord) (db : Db) (pooled : db.pool ≡ true)
    (told : str_eq s.team_id "" ≡ false) (new : lookup s.team_id db.teams ≡ none)
    (taken : any (λ (t : String × String). str_eq t.1 s.team_name) db.teams ≡ true) where
  teams-same : teams_after run s db.teams ≡ db.teams
  teams-same = ground (arith, told, new, taken)

  insert-refused : try_insert run now s db.teams db.submissions ≡ none
  insert-refused = ground (arith, told, new)

  -- A team that is not in the table, and whose name is that of another row, can enter no submission:
  -- the statement for the team leaves the table as it is, the INSERT fails on the reference to it, and
  -- CreateSubmission answers the error and changes nothing, however often it is called.
  pub create_submission_locked : create_submission run now s db ≡ (some run.error, db)
  unfolding create_submission
  create_submission_locked = rw (pooled, teams-same, insert-refused) refl
