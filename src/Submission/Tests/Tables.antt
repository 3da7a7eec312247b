-- ===== src/Submission/Tests/Tables.antt =====
-- A test of the tables' keys.
use iicpc_summer_hackathon.Prelude.{◌≡◌, refl, true, [], ◌∷◌, some}
use iicpc_summer_hackathon.Prelude.Int.{pos}
use iicpc_summer_hackathon.Prelude.Dict.{lookup}
use iicpc_summer_hackathon.Submission.Records.{SubmissionRecord, Db, CreateRun, create_submission}
use iicpc_summer_hackathon.Submission.Records.NameTaken.{create_submission_locked}
use iicpc_summer_hackathon.Submission.Tests.{submission_row}

abbrev registered_again : SubmissionRecord
registered_again = record submission_row { team_id = "id2"; team_name = "reds" }

abbrev one_team : Db
one_team = record { pool = true; teams = ("id1", "reds") ∷ []; submissions = [] }

abbrev both_up : CreateRun
both_up = record { team_up = true; insert_up = true; error = "foreign key" }

create_submission_locked_example :
    create_submission both_up (pos 9) registered_again one_team ≡ (some "foreign key", one_team)
unfolding lookup
create_submission_locked_example =
    create_submission_locked both_up (pos 9) registered_again one_team refl refl refl refl
