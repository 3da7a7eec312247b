-- ===== src/Submission/Records.antt =====
-- The database of the submission service: DB of services/submission-service/main.go, on the tables
-- teams and submissions of init-sql/01-schema.sql. A null text is the empty one, as the SELECTs give it.
use iicpc_summer_hackathon.Prelude.{
  ℕ, zero, suc, String, Bool, false, List, [], ◌∷◌, Option, none, some, map, if◌then◌else◌, str_eq,
  ◌||◌, is_some, not,
}
use iicpc_summer_hackathon.Prelude.Int.{ℤ, ltb_ℤ}
use iicpc_summer_hackathon.Prelude.Dict.{Dict, lookup}
use iicpc_summer_hackathon.Prelude.Sort.{sort_slice}
pub mod Find
pub mod NameTaken

pub record SubmissionRecord : Type 0 where
  pub submission_id : String
  pub team_id : String
  pub team_name : String
  pub language : String
  pub endpoint_type : String
  pub filename : String
  pub object_key : String
  pub image_ref : String
  pub status : String
  pub session_id : String
  pub error_msg : String
  pub created_at : ℤ
  pub updated_at : ℤ

-- The pool, and the two tables: a team's id and name, and the submissions.
pub record Db : Type 0 where
  pub pool : Bool
  pub teams : Dict String
  pub submissions : List SubmissionRecord

abbrev pub any {ℓ} : {A : Type ℓ} → (A → Bool) → List A → Bool
any p [] = false
any p (x ∷ xs) = p x || any p xs

-- INSERT INTO teams ... ON CONFLICT (team_id) DO NOTHING: a name that another team has is an error.
abbrev pub upsert_team : String → String → Dict String → Dict String
upsert_team team_id team_name teams =
    if is_some (lookup team_id teams) || any (λ t. str_eq t.1 team_name) teams
    then teams
    else (team_id, team_name) ∷ teams

-- A row as the INSERT leaves it: the columns that it does not name have their defaults.
abbrev pub inserted : ℤ → SubmissionRecord → SubmissionRecord
inserted now s = record s {
  image_ref = "";
  session_id = "";
  error_msg = "";
  created_at = now;
  updated_at = now;
}

-- INSERT INTO submissions, at the database's time: none where the key is taken or the team, unless it
-- is null, is not there.
abbrev pub insert_submission :
    ℤ → SubmissionRecord → Dict String → List SubmissionRecord → Option (List SubmissionRecord)
insert_submission now s teams rows =
    if any (λ r. str_eq r.submission_id s.submission_id) rows
    then none
    else (if str_eq s.team_id "" || is_some (lookup s.team_id teams)
        then some (inserted now s ∷ rows)
        else none)

-- Whether the two statements reach the database, and the error's text where the second does not work.
pub record CreateRun : Type 0 where
  pub team_up : Bool
  pub insert_up : Bool
  pub error : String

-- The teams after the first statement, whose error is not looked at.
abbrev pub teams_after : CreateRun → SubmissionRecord → Dict String → Dict String
teams_after run s teams =
    if str_eq s.team_id "" || not run.team_up
    then teams
    else upsert_team s.team_id s.team_name teams

abbrev pub try_insert :
    CreateRun
    → ℤ
    → SubmissionRecord
    → Dict String
    → List SubmissionRecord
    → Option (List SubmissionRecord)
try_insert run now s teams rows = if run.insert_up then insert_submission now s teams rows else none

abbrev pub after_insert : String → Db → Option (List SubmissionRecord) → Option String × Db
after_insert error db none = (some error, db)
after_insert error db (some rows) = (none, record db { submissions = rows })

-- CreateSubmission: an error or none, and the tables.
unfoldable pub create_submission : CreateRun → ℤ → SubmissionRecord → Db → Option String × Db
create_submission run now s db =
    if not db.pool
    then (none, db)
    else (let teams = teams_after run s db.teams in
        after_insert run.error (record db { teams = teams })
          (try_insert run now s teams db.submissions))

abbrev pub update_row :
    (SubmissionRecord → SubmissionRecord) → String → List SubmissionRecord → List SubmissionRecord
update_row f id = map (λ r. if str_eq r.submission_id id then f r else r)

abbrev pub set_fields : ℤ → String → String → String → String → SubmissionRecord → SubmissionRecord
set_fields now status image_ref error_msg session_id r = record r {
  status = status;
  image_ref = image_ref;
  error_msg = error_msg;
  session_id = session_id;
  updated_at = now;
}

-- UpdateSubmission, at the database's time; `up` tells whether the statement reaches the database.
-- The callers ignore its error.
abbrev pub update_submission : Bool → ℤ → String → String → String → String → String → Db → Db
update_submission up now id status image_ref error_msg session_id db =
    if not db.pool || not up then db else record db {
      submissions =
          update_row (set_fields now status image_ref error_msg session_id) id db.submissions;
    }

unfoldable pub find_submission : String → List SubmissionRecord → Option SubmissionRecord
find_submission id [] = none
find_submission id (r ∷ rows) =
    let rest = find_submission id rows in if str_eq r.submission_id id then some r else rest

-- GetSubmission; none is an error.
abbrev pub get_submission : Bool → String → Db → Option SubmissionRecord
get_submission up id db = if not db.pool || not up then none else find_submission id db.submissions

abbrev pub page {ℓ} : {A : Type ℓ} → ℕ → ℕ → List A → List A
page zero offset xs = []
page (suc limit) offset [] = []
page (suc limit) (suc offset) (x ∷ xs) = page (suc limit) offset xs
page (suc limit) zero (x ∷ xs) = x ∷ page limit zero xs

-- ListSubmissions: ORDER BY created_at DESC LIMIT limit OFFSET offset.
abbrev pub list_submissions : Bool → ℕ → ℕ → Db → Option (List SubmissionRecord)
list_submissions up limit offset db =
    if not db.pool
    then some []
    else (if up
        then some
            (page limit offset (sort_slice (λ a b. ltb_ℤ b.created_at a.created_at) db.submissions))
        else none)
