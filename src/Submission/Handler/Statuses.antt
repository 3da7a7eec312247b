-- ===== src/Submission/Handler/Statuses.antt =====
-- What a job makes of the submission's row.
use iicpc_summer_hackathon.Prelude.{ℕ, ◌≡◌, refl, ap, ◌∙◌, String, Bool, true, Option, none}
use iicpc_summer_hackathon.Prelude.Int.{ℤ}
use iicpc_summer_hackathon.Orchestrator.Sessions.{StartRequest}
use iicpc_summer_hackathon.Submission.Records.{
  SubmissionRecord, Db, set_fields, update_row, update_submission,
}
use iicpc_summer_hackathon.Submission.Records.Find.{update_row-update_row}
use iicpc_summer_hackathon.Submission.Build.{Builder, BuildResult, panicked, failed, built, build}
use iicpc_summer_hackathon.Submission.Deploy.{Deployed, crashed, deployed, deploy}
use iicpc_summer_hackathon.Submission.Handler.{
  JobRun, BuildJob, force_running, after_deploy, after_build, deploy_job_of, build_and_deploy,
}

-- How a job ends, and what it has in hand then.
pub data Ending : Type 0 where
  at_build : Ending
  build_error : String → Ending
  at_deploy : String → Ending
  session : String → String → Option StartRequest → Ending

-- Build and Deploy alone, without the database.
abbrev pub deploy_ending : String → Deployed → Ending
deploy_ending image crashed = at_deploy image
deploy_ending image (deployed session_id request) = session image session_id request

abbrev pub build_ending : JobRun → BuildJob → BuildResult → Ending
build_ending r job panicked = at_build
build_ending r job (failed e) = build_error e
build_ending r job (built image) =
    deploy_ending image (deploy r.deploying (deploy_job_of job image)).1

abbrev pub ending : Builder → JobRun → BuildJob → Ending
ending b r job =
    build_ending r job (build b r.building job.submission_id job.language job.archive_path).1

-- The row that says so.
abbrev pub row_after : (ℕ → ℤ) → Ending → SubmissionRecord → SubmissionRecord
row_after now at_build = set_fields (now 0) "building" "" "" ""
row_after now (build_error e) = set_fields (now 1) "build_failed" "" e ""
row_after now (at_deploy image) = set_fields (now 1) "deploying" image "" ""
row_after now (session image session_id request) = set_fields (now 2) "running" image "" session_id

abbrev pub request_of : Ending → Option StartRequest
request_of at_build = none
request_of (build_error e) = none
request_of (at_deploy image) = none
request_of (session image session_id request) = request

-- The database in which just this submission's row has changed.
abbrev pub with_row : (SubmissionRecord → SubmissionRecord) → String → Db → Db
with_row f id db = record db { submissions = update_row f id db.submissions }

update_submission-up :
    (up : Bool) (now : ℤ) (id status image e sid : String) (db : Db)
    → up ≡ true
    → db.pool ≡ true
    → update_submission up now id status image e sid db
      ≡ with_row (set_fields now status image e sid) id db
update_submission-up up now id status image e sid db h pool = simp (h, pool)

force_running-up :
    (up : Bool) (sid id : String) (db : Db)
    → up ≡ true
    → db.pool ≡ true
    → force_running up sid id db
      ≡ with_row (λ row. record row { status = "running"; session_id = sid }) id db
force_running-up up sid id db h pool = simp (h, pool)

with_row-with_row :
    (f g : SubmissionRecord → SubmissionRecord) (id : String) (db : Db)
    → ((row : SubmissionRecord) → (g row).submission_id ≡ row.submission_id)
    → with_row f id (with_row g id db) ≡ with_row (λ row. f (g row)) id db
with_row-with_row f g id db keeps =
    ap (λ rows. record db { submissions = rows })
      (update_row-update_row f g keeps id db.submissions)

-- A statement that follows another one for the same row.
update_submission-twice :
    (up : Bool) (now now' : ℤ) (id status status' image image' e e' sid sid' : String) (db : Db)
    → up ≡ true
    → db.pool ≡ true
    → update_submission up now' id status' image' e' sid'
        (with_row (set_fields now status image e sid) id db)
      ≡ with_row (set_fields now' status' image' e' sid') id db
update_submission-twice up now now' id status status' image image' e e' sid sid' db h pool =
    update_submission-up up now' id status' image' e' sid' _ h pool
    ∙ with_row-with_row (set_fields now' status' image' e' sid') (set_fields now status image e sid)
        id db (λ r. refl)

force_running-twice :
    (up : Bool) (now : ℤ) (id image sid : String) (db : Db)
    → up ≡ true
    → db.pool ≡ true
    → force_running up sid id (with_row (set_fields now "running" image "" sid) id db)
      ≡ with_row (set_fields now "running" image "" sid) id db
force_running-twice up now id image sid db h pool =
    force_running-up up sid id _ h pool
    ∙ with_row-with_row (λ row. record row { status = "running"; session_id = sid })
        (set_fields now "running" image "" sid) id db (λ r. refl)

module _ (b : Builder) (r : JobRun) (job : BuildJob) (up : (n : ℕ) → r.up n ≡ true) where
  after_deploy-ending :
      (image : String) (d : Deployed) (db : Db)
      → db.pool ≡ true
      → let e = deploy_ending image d in
        after_deploy r job.submission_id image d
          (with_row (set_fields (r.now 1) "deploying" image "" "") job.submission_id db)
        ≡ (request_of e, with_row (row_after r.now e) job.submission_id db)
  after_deploy-ending image crashed db pool = refl
  after_deploy-ending image (deployed sid q) db pool =
      let id = job.submission_id in
      ap (λ x. (q, x))
        (ap (force_running (r.up 3) sid id) (
            update_submission-twice (r.up 2) (r.now 1) (r.now 2) id "deploying" "running" image
              image "" "" "" sid db (up 2) pool)
          ∙ force_running-twice (r.up 3) (r.now 2) id image sid db (up 3) pool)

  after_build-ending :
      (result : BuildResult) (db : Db)
      → db.pool ≡ true
      → let e = build_ending r job result in
        after_build r job result
          (with_row (set_fields (r.now 0) "building" "" "" "") job.submission_id db)
        ≡ (request_of e, with_row (row_after r.now e) job.submission_id db)
  after_build-ending panicked db pool = refl
  after_build-ending (failed e) db pool =
      ap (λ x. (none, x))
        (update_submission-twice (r.up 1) (r.now 0) (r.now 1) job.submission_id "building"
          "build_failed" "" "" "" e "" "" db (up 1) pool)
  after_build-ending (built image) db pool =
      let d = (deploy r.deploying (deploy_job_of job image)).1 in
      ap (after_deploy r job.submission_id image d) (
        update_submission-twice (r.up 1) (r.now 0) (r.now 1) job.submission_id "building"
          "deploying" "" image "" "" "" "" db (up 1) pool)
      ∙ after_deploy-ending image d db pool

  -- With a database, a job whose statements all reach it changes its own submission's row and nothing else
  -- there: the row ends as building where Build panics, build_failed with Build's error, deploying where
  -- Deploy panics, and otherwise running with Deploy's session, whose request, if there is one, goes to the
  -- orchestrator.
  pub build_and_deploy_lem :
      (db : Db)
      → db.pool ≡ true
      → build_and_deploy b r job db ≡ (
        request_of (ending b r job),
        with_row (row_after r.now (ending b r job)) job.submission_id db,
      )
  unfolding build_and_deploy
  build_and_deploy_lem db pool =
      let result = (build b r.building job.submission_id job.language job.archive_path).1 in
      ap (after_build r job result) (
        update_submission-up (r.up 0) (r.now 0) job.submission_id "building" "" "" "" db (up 0)
          pool)
      ∙ after_build-ending result db pool
