-- ===== src/Submission/Tests.antt =====
-- A submission from the upload to its session, on concrete inputs.
mod Tables
use iicpc_summer_hackathon.Prelude.{
  if◌then◌else◌, ℕ, ◌≡◌, ◌↔◌, refl, String, true, false, [], ◌∷◌, none, some,
}
use iicpc_summer_hackathon.Prelude.Int.{pos}
use iicpc_summer_hackathon.Orchestrator.State.{Orchestrator, new_orchestrator}
use iicpc_summer_hackathon.Submission.Text.{codes, base}
use iicpc_summer_hackathon.Submission.Records.{SubmissionRecord, Db, create_submission}
use iicpc_summer_hackathon.Submission.Scan.{ScanRun, suspicious, scan}
use iicpc_summer_hackathon.Submission.Scan.Patterns.{IsClean, scan_lem}
use iicpc_summer_hackathon.Submission.Build.{Builder, BuildRun}
use iicpc_summer_hackathon.Submission.Deploy.{port_of}
use iicpc_summer_hackathon.Submission.Handler.{
  Service, SubmitRequest, SubmitRun, BuildJob, JobRun, submit_code, build_and_deploy,
}
use iicpc_summer_hackathon.Submission.Handler.Submit.{Verdict, submit_code_lem}
use iicpc_summer_hackathon.Submission.Handler.Statuses.{
  ending, request_of, row_after, with_row, build_and_deploy_lem,
}
use iicpc_summer_hackathon.Orchestrator.Sessions.{StartRequest}
use iicpc_summer_hackathon.Submission.Handler.Started.{BodyFormat, is_plain, Started}

base_path : base "up/engine.tar.gz/" ≡ "engine.tar.gz"
unfolding base
base_path = refl

base_root : base "//" ≡ "/"
unfolding base
base_root = refl

port_found : port_of (some "0.0.0.0:49153\n") ≡ "49153"
unfolding port_of
port_found = refl

abbrev file_of : String → ScanRun
file_of text = record { stat = some (pos 20); read_file = some (codes text); clamscan = some none }

reverse_shell : scan (file_of "run BASH -I now") ≡ some (suspicious "bash -i")
unfolding scan
reverse_shell = refl

scan_lem_example : (scan (file_of "package main") ≡ none) ↔ IsClean (file_of "package main")
scan_lem_example = scan_lem (file_of "package main")

abbrev pub submission_row : SubmissionRecord
submission_row = record {
  submission_id = "0a1b2c3d-1111";
  team_id = "";
  team_name = "anonymous";
  language = "go";
  endpoint_type = "WebSocket";
  filename = "engine.tar.gz";
  object_key = "0a1b2c3d-1111/engine.tar.gz";
  image_ref = "";
  status = "pending";
  session_id = "";
  error_msg = "";
  created_at = pos 5;
  updated_at = pos 5;
}

abbrev pub empty_service : Service
empty_service = record {
  db = record { pool = true; teams = []; submissions = [] };
  objects = [];
  temp_files = [];
}

abbrev pub submit_run : SubmitRun
submit_run = record {
  fresh = "0a1b2c3d-1111";
  form_error = "";
  temp_file = some "/tmp/upload-1";
  temp_error = "";
  copy_error = none;
  scanned = file_of "package main";
  size = some (pos 20);
  upload_error = none;
  create = record { team_up = true; insert_up = true; error = "" };
  now = pos 5;
}

abbrev pub submit_request : SubmitRequest
submit_request = record {
  team_id = "";
  team_name = "";
  language = "";
  endpoint_type = "";
  file = some "engine.tar.gz";
}

submitted :
    (submit_code submit_run submit_request empty_service).2.db.submissions ≡ submission_row ∷ []
unfolding submit_code create_submission scan base
submitted = refl

submit_code_lem_example :
    Verdict submit_run submit_request empty_service
      (submit_code submit_run submit_request empty_service)
submit_code_lem_example = submit_code_lem submit_run submit_request empty_service

abbrev pub docker : Builder
docker = record { registry = "registry:5000"; runtime = "runc" }

abbrev build_run : BuildRun
build_run = record {
  mkdir_error = none;
  build_dir = "/tmp/of-build-1";
  tar_works = true;
  tar_out = "";
  unzip_works = false;
  unzip_out = "";
  copy = record { open_error = none; create_error = none; copy_error = none };
  write_error = none;
  docker_works = true;
}

abbrev pub job_run : JobRun
job_run = record {
  building = build_run;
  deploying = record {
    fresh = "s1";
    docker_works = true;
    docker_out = "0123456789abcdef\n";
    docker_port = some "0.0.0.0:49153\n";
  };
  up = λ n. true;
  now = λ n. pos 9;
}

abbrev pub job : BuildJob
job = record {
  submission_id = "0a1b2c3d-1111";
  team_name = "anonymous";
  language = "go";
  endpoint_type = "WebSocket";
  archive_path = "/tmp/upload-1";
}

abbrev pub one_row : Db
one_row = record { pool = true; teams = []; submissions = submission_row ∷ [] }

build_and_deploy_lem_example : build_and_deploy docker job_run job one_row ≡ (
  request_of (ending docker job_run job),
  with_row (row_after job_run.now (ending docker job_run job)) "0a1b2c3d-1111" one_row,
)
build_and_deploy_lem_example = build_and_deploy_lem docker job_run job (λ n. refl) one_row refl

abbrev fresh_orchestrator : Orchestrator ℕ
fresh_orchestrator = new_orchestrator

-- A decoder that refuses all texts but plain ones.
abbrev plain_only : BodyFormat StartRequest
plain_only = record { print = λ q. q; decode = λ q. if is_plain q then some q else none }
