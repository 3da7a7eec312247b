-- ===== src/Submission/Handler.antt =====
-- Handler of services/submission-service/main.go: SubmitCode, buildAndDeploy and the two reads.
use Prim.Native.String.{◌++◌ as str_append}
use iicpc_summer_hackathon.Prelude.{
  ℕ, String, Bool, List, [], ◌∷◌, ◌++◌, Option, none, some, if◌then◌else◌, str_eq, length, ◌&&◌,
}
use iicpc_summer_hackathon.Prelude.Int.{ℤ, pos}
use iicpc_summer_hackathon.Prelude.Dict.{Dict, insert}
use iicpc_summer_hackathon.Orchestrator.Sessions.{StartRequest}
use iicpc_summer_hackathon.Submission.Text.{base}
use iicpc_summer_hackathon.Submission.Records.{
  SubmissionRecord, Db, CreateRun, create_submission, update_row, update_submission, get_submission,
  list_submissions,
}
use iicpc_summer_hackathon.Submission.Scan.{ScanRun, ScanError, scan}
use iicpc_summer_hackathon.Submission.Build.{
  Builder, BuildRun, BuildResult, panicked, failed, built, build,
}
use iicpc_summer_hackathon.Submission.Deploy.{
  DeployRun, DeployJob, Deployed, crashed, deployed, deploy,
}
pub mod Submit
pub mod Statuses
pub mod Started

-- What the service keeps: the database, the bucket's objects by key, and the uploads' temporary files.
pub record Service : Type 0 where
  pub db : Db
  pub objects : Dict ℤ
  pub temp_files : List String

-- A request: two headers, two fields and the name of the file, where there is one.
pub record SubmitRequest : Type 0 where
  pub team_id : String
  pub team_name : String
  pub language : String
  pub endpoint_type : String
  pub file : Option String

-- The goroutine that a submission leaves behind.
pub record BuildJob : Type 0 where
  pub submission_id : String
  pub team_name : String
  pub language : String
  pub endpoint_type : String
  pub archive_path : String

-- How the steps of a submission go: the new id, the temporary file's name, the scan, and the size that
-- the file has when it is opened again. That open's error is not looked at: without a file the size is
-- that of nothing, a panic.
pub record SubmitRun : Type 0 where
  pub fresh : String
  pub form_error : String
  pub temp_file : Option String
  pub temp_error : String
  pub copy_error : Option String
  pub scanned : ScanRun
  pub size : Option ℤ
  pub upload_error : Option String
  pub create : CreateRun
  pub now : ℤ

pub data SubmitReply : Type 0 where
  no_file : String → SubmitReply
  temp_failed : String → SubmitReply
  unsafe : ScanError → SubmitReply
  recovered : SubmitReply
  upload_failed : String → SubmitReply
  db_failed : String → SubmitReply
  accepted : String → SubmitReply

abbrev pub or_default : String → String → String
or_default text default = if str_eq text "" then default else text

abbrev pub object_key_of : String → String → String
object_key_of submission_id filename = str_append submission_id (str_append "/" (base filename))

abbrev pub new_record : SubmitRequest → String → String → SubmissionRecord
new_record q fresh filename = record {
  submission_id = fresh;
  team_id = q.team_id;
  team_name = or_default q.team_name "anonymous";
  language = or_default q.language "go";
  endpoint_type = or_default q.endpoint_type "WebSocket";
  filename = filename;
  object_key = object_key_of fresh filename;
  image_ref = "";
  status = "pending";
  session_id = "";
  error_msg = "";
  created_at = pos 0;
  updated_at = pos 0;
}

abbrev pub job_of : SubmissionRecord → String → BuildJob
job_of r path = record {
  submission_id = r.submission_id;
  team_name = r.team_name;
  language = r.language;
  endpoint_type = r.endpoint_type;
  archive_path = path;
}

abbrev pub Submitted : Type 0
Submitted = SubmitReply × Option BuildJob × Service

-- From CreateSubmission's return on.
abbrev pub after_create : SubmissionRecord → String → Service → Option String → Submitted
after_create rec path s (some e) = (db_failed e, none, s)
after_create rec path s none = (accepted rec.submission_id, some (job_of rec path), s)

-- With the object in the bucket.
abbrev pub submit_record : SubmitRun → SubmissionRecord → String → Service → Submitted
submit_record r rec path s =
    let (error, db') = create_submission r.create r.now rec s.db in
    after_create rec path (record s { db = db' }) error

-- From the upload to the bucket on.
abbrev pub submit_upload : SubmitRun → SubmissionRecord → String → Service → Submitted
submit_upload r rec path s = elim (r.size) [
  | none ↦ (recovered, none, s)
  | some size ↦ elim (r.upload_error) [
    | some e ↦ (upload_failed e, none, s)
    | none ↦ submit_record r rec path (record s { objects = insert rec.object_key size s.objects })
  ]
]

-- From Scan's return on; the temporary file stays where a step fails.
abbrev pub after_scan :
    SubmitRun → SubmissionRecord → String → Service → Option ScanError → Submitted
after_scan r rec path s (some e) = (unsafe e, none, s)
after_scan r rec path s none = submit_upload r rec path s

-- From the copy to the temporary file on.
abbrev pub after_copy : SubmitRun → SubmissionRecord → String → Service → Option String → Submitted
after_copy r rec path s (some e) = (temp_failed e, none, s)
after_copy r rec path s none = after_scan r rec path s (scan r.scanned)

-- The reply, the goroutine where one is started, and the service after.
unfoldable pub submit_code : SubmitRun → SubmitRequest → Service → Submitted
submit_code r q s = elim (q.file) [
  | none ↦ (no_file r.form_error, none, s)
  | some filename ↦ elim (r.temp_file) [
    | none ↦ (temp_failed r.temp_error, none, s)
    | some path ↦
        after_copy r (new_record q r.fresh filename) path
          (record s { temp_files = path ∷ s.temp_files }) r.copy_error
  ]
]

-- How a job goes: Build, Deploy, and for the four statements whether they reach the database, and when.
pub record JobRun : Type 0 where
  pub building : BuildRun
  pub deploying : DeployRun
  pub up : ℕ → Bool
  pub now : ℕ → ℤ

-- The last statement of buildAndDeploy, which leaves the time.
abbrev pub force_running : Bool → String → String → Db → Db
force_running up session_id id db =
    if db.pool && up
    then record db {
      submissions =
          update_row (λ r. record r { status = "running"; session_id = session_id }) id
            db.submissions;
    }
    else db

-- From the return of Deploy on: the request on its way to the orchestrator, if any, and the database.
abbrev pub after_deploy : JobRun → String → String → Deployed → Db → Option StartRequest × Db
after_deploy r id image crashed db = (none, db)
after_deploy r id image (deployed session_id request) db = (
  request,
  force_running (r.up 3) session_id id
      (update_submission (r.up 2) (r.now 2) id "running" image "" session_id db),
)

abbrev pub deploy_job_of : BuildJob → String → DeployJob
deploy_job_of job image = record {
  submission_id = job.submission_id;
  team_name = job.team_name;
  language = job.language;
  image_ref = image;
  endpoint_type = job.endpoint_type;
}

-- From the return of Build on.
abbrev pub after_build : JobRun → BuildJob → BuildResult → Db → Option StartRequest × Db
after_build r job panicked db = (none, db)
after_build r job (failed e) db =
    (none, update_submission (r.up 1) (r.now 1) job.submission_id "build_failed" "" e "" db)
after_build r job (built image) db =
    let id = job.submission_id in
    after_deploy r id image (deploy r.deploying (deploy_job_of job image)).1
      (update_submission (r.up 1) (r.now 1) id "deploying" image "" "" db)

unfoldable pub build_and_deploy : Builder → JobRun → BuildJob → Db → Option StartRequest × Db
build_and_deploy b r job db =
    let id = job.submission_id in
    after_build r job (build b r.building id job.language job.archive_path).1
      (update_submission (r.up 0) (r.now 0) id "building" "" "" "" db)

abbrev remove_one : String → List String → List String
remove_one path [] = []
remove_one path (p ∷ paths) = if str_eq p path then paths else p ∷ remove_one path paths

-- The goroutine: the job, with a panic caught, and then the end of its temporary file.
unfoldable pub run_job : Builder → JobRun → BuildJob → Service → Option StartRequest × Service
unfolding build_and_deploy
run_job b r job s =
    let (request, db') = build_and_deploy b r job s.db in
    (request, record s { db = db'; temp_files = remove_one job.archive_path s.temp_files })

-- GET /v1/submissions/:id, where none is 404, and GET /v1/submissions, where none is 500.
unfoldable pub get_submission_handler : Bool → String → Db → Option SubmissionRecord
get_submission_handler up id db = get_submission up id db

unfoldable pub list_submissions_handler : Bool → Db → Option (List SubmissionRecord × ℕ)
list_submissions_handler up db = elim (list_submissions up 50 0 db) [
  | none ↦ none
  | some records ↦ some (records, length records)
]
