-- ===== src/Submission/Deploy.antt =====
-- JobDeployer of services/submission-service/main.go. What docker answers is an argument.
use Prim.Native.String.{◌++◌ as str_append, len}
use iicpc_summer_hackathon.Prelude.{
  String, Bool, List, [], ◌∷◌, Option, none, some, if◌then◌else◌, str_eq, ◌||◌, ltb,
}
use iicpc_summer_hackathon.Prelude.Int.{pos}
use iicpc_summer_hackathon.Orchestrator.Sessions.{StartRequest}
use iicpc_summer_hackathon.Submission.Text.{trim_space, last_part}
use iicpc_summer_hackathon.Submission.Build.{short_id}

-- The new session's id, docker run's outcome and output, and docker port's output where it works.
pub record DeployRun : Type 0 where
  pub fresh : String
  pub docker_works : Bool
  pub docker_out : String
  pub docker_port : Option String

pub record DeployJob : Type 0 where
  pub submission_id : String
  pub team_name : String
  pub language : String
  pub image_ref : String
  pub endpoint_type : String

-- Deploy has no error: it panics, or gives the session's id and, where a container runs, the values of
-- the request to the orchestrator.
pub data Deployed : Type 0 where
  crashed : Deployed
  deployed : String → Option StartRequest → Deployed

abbrev pub run_args : String → String → List String
run_args short image =
    "docker"
    ∷ "run"
    ∷ "-d"
    ∷ "--name"
    ∷ str_append "contestant-" short
    ∷ "--cpus"
    ∷ "2"
    ∷ "--memory"
    ∷ "4g"
    ∷ "--memory-swap"
    ∷ "4g"
    ∷ "--read-only"
    ∷ "--tmpfs"
    ∷ "/tmp:size=512m"
    ∷ "--cap-drop"
    ∷ "ALL"
    ∷ "--security-opt"
    ∷ "no-new-privileges"
    ∷ "-p"
    ∷ "0:8080"
    ∷ image
    ∷ []

-- The port behind the last colon of docker port's output, or 8080.
unfoldable pub port_of : Option String → String
port_of none = "8080"
port_of (some out) = elim (last_part (trim_space out)) [ none ↦ "8080" | some p ↦ trim_space p ]

abbrev pub target_url_of : String → String → String
target_url_of endpoint_type port =
    str_append
      (if str_eq endpoint_type "REST" || str_eq endpoint_type "HTTP2" then "http://" else "ws://")
      (str_append "172.17.0.1:" port)

-- The values that notifyOrchestrator puts into the body of its POST to /api/sessions/start, three
-- seconds later: the texts with %q, the numbers as they stand in the format.
abbrev pub start_body : DeployJob → String → String → StartRequest
start_body job session_id target_url = record {
  submission_id = job.submission_id;
  session_id = session_id;
  team_name = job.team_name;
  language = job.language;
  target_url = target_url;
  endpoint_type = job.endpoint_type;
  bot_count = pos 2048;
  duration_secs = pos 300;
}

-- What follows a container that runs; its id is cut to 12 characters for the log.
abbrev pub announce : DeployRun → DeployJob → Deployed
announce r job =
    if ltb (len (trim_space r.docker_out)) 12
    then crashed
    else deployed r.fresh
        (some (start_body job r.fresh (target_url_of job.endpoint_type (port_of r.docker_port))))

-- The command that is run, where it comes to that, and the result.
unfoldable pub deploy : DeployRun → DeployJob → List String × Deployed
deploy r job = elim (short_id job.submission_id) [
  | none ↦ ([], crashed)
  | some short ↦ (
    run_args short job.image_ref,
    if r.docker_works then announce r job else deployed r.fresh none,
  )
]
