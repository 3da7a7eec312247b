-- ===== src/Submission/Handler/Started.antt =====
-- A job's end at the orchestrator: the session that the submission's row names.
use iicpc_summer_hackathon.Prelude.{
  ℕ, leb, ◌≡◌, String, Bool, true, ◌&&◌, List, [], ◌∷◌, Option, none, some,
}
use iicpc_summer_hackathon.Prelude.Int.{pos}
use iicpc_summer_hackathon.Prelude.Dict.{lookup}
use iicpc_summer_hackathon.Prelude.Float.{Float64}
use iicpc_summer_hackathon.Orchestrator.State.{Orchestrator, BenchmarkSession, pending}
use iicpc_summer_hackathon.Orchestrator.Sessions.{StartRequest, both_done}
use iicpc_summer_hackathon.Orchestrator.Handlers.{accepted, start_handler}
use iicpc_summer_hackathon.Submission.Text.{codes}
use iicpc_summer_hackathon.Submission.Records.{SubmissionRecord, Db, find_submission}
use iicpc_summer_hackathon.Submission.Deploy.{
  DeployJob, DeployRun, start_body, target_url_of, port_of,
}

-- The body of the request, on a type T of texts: how fmt.Sprintf prints the values and what the JSON
-- decoder reads, where none is an error.
pub record BodyFormat (T : Type 0) : Type 0 where
  pub print : StartRequest → T
  pub decode : T → Option StartRequest

abbrev plain_text : String → Bool
plain_text s = all_plain (codes s)
  where
    all_plain : List ℕ → Bool
    all_plain [] = true
    all_plain (c ∷ cs) = leb 32 c && leb c 126 && all_plain cs

-- The texts have printable ASCII characters only.
abbrev pub is_plain : StartRequest → Bool
is_plain q =
    plain_text q.submission_id
    && plain_text q.session_id
    && plain_text q.team_name
    && plain_text q.language
    && plain_text q.target_url
    && plain_text q.endpoint_type

-- Of printable ASCII characters, %q escapes the quote and the backslash only, as JSON does, and the
-- body reads back. Of others it may print what JSON refuses, as \a or \x00.
pub record IsReadBack {T : Type 0} (body : BodyFormat T) : Type 0 where
  pub read_back : (q : StartRequest) → is_plain q ≡ true → body.decode (body.print q) ≡ some q

-- What the orchestrator's handler decodes of a job's request.
abbrev pub received : {T : Type 0} → BodyFormat T → Option StartRequest → Option StartRequest
received body none = none
received body (some q) = body.decode (body.print q)

-- What the orchestrator is told of a container that runs.
abbrev pub told : DeployRun → DeployJob → StartRequest
told run d = start_body d run.fresh (target_url_of d.endpoint_type (port_of run.docker_port))

module _ {F : Type 0} ⦃fl : Float64 F⦄ where
  -- The row is running, and the request brings about a pending session under the row's session id.
  abbrev pub Started :
      {T : Type 0}
      → BodyFormat T
      → String
      → String
      → String
      → ℕ
      → String
      → Orchestrator F
      → Option StartRequest × Db
      → Type 0
  Started body id image url now fresh o (request, db) =
      let replied = start_handler now fresh both_done (received body request) o in
      (row : SubmissionRecord) × (sess : BenchmarkSession F) × (find_submission id db.submissions
        ≡ some row)
      × (row.status ≡ "running")
      × (row.image_ref ≡ image)
      × (replied.0 ≡ accepted sess)
      × (lookup row.session_id replied.1.sessions ≡ some sess)
      × (sess.status ≡ pending)
      × (sess.submission_id ≡ id)
      × (sess.bot_count ≡ pos 2048)
      × (sess.duration_secs ≡ pos 300)
      × (sess.target_url ≡ url)
