-- ===== src/Worker.antt =====
-- worker/repository.py and worker/agent.py: the agent that takes jobs from the queue, runs each in a
-- container and writes down how it ended. A queue holds only identifiers that `enqueue_job` put
-- there, so the parse of an identifier does not fail.
pub mod Lock
pub mod Overrun
pub mod Agent
pub mod Outcomes
pub mod Reaping
pub mod Container
pub mod Listener
pub mod Lifecycle
use perzforge.Prelude.{
  length, leb, is_some, ℕ, ◌*◌, ◌+◌, ◌≡◌, Bool, true, false, not, ◌&&◌, ◌||◌, Option, none, some,
  List, [], ◌∷◌, ◌++◌, String, concat, Text, codes, find?, count, update_where, str_eq, ◌==◌,
  if◌then◌else◌,
}
use perzforge.Settings.{Settings}
use perzforge.Schema.{
  Job, JobSpec, JobStatus, queued, running, cancelling, succeeded, failed, cancelled, JobLog, Db,
}
use perzforge.Http.{Result, ok, err, Error}
use perzforge.Quota.{World}
use perzforge.Jobs.{find_job, update_job, status_code}
use perzforge.Jobs.Spec.{is_valid_spec}
use perzforge.Storage.{Printing}
use perzforge.Registry.{Cloud, OutputFile, Source, Promoted, promote_outputs}

-- ContainerRunResult of worker/container.py; the outputs directory by the files in it.
pub record ContainerRunResult : Type 0 where
  pub exit_code : Option ℕ
  pub error_message : Option String
  pub log_tail : Text
  pub timed_out : Bool
  pub cancelled : Bool
  pub outputs_dir : Option (List OutputFile)

-- The event that ends the log stream of a job.
pub data Eof : Type 0 where
  eof : Option ℕ → Eof
  eof_cancelled : Eof

-- What the agent works on: database, counters and bucket, what it published, newest first, and
-- whether an exception has ended its process.
pub record Machine : Type 0 where
  pub cloud : Cloud
  pub published : List (ℕ × Eof)
  pub crashed : Bool

-- What the agent is given from outside: the run of a container (specification, job, seconds and
-- name), the lookup in MLflow, and the texts of exceptions.
pub record Outside : Type 0 where
  pub run_container : JobSpec → ℕ → ℕ → Text → ContainerRunResult
  pub lookup_mlflow_run_id : Text → ℕ → Option String
  pub describe : Error → String
  pub describe_spec : JobSpec → String

abbrev pub is_at : String → JobStatus → Job → Bool
is_at worker_hostname status job = elim job.worker_id [
  | none ↦ false
  | some host ↦ str_eq host worker_hostname && status_code job.status == status_code status
]

abbrev pub reap_cancelling : ℕ → Job → Job
reap_cancelling now job = record job {
  status = cancelled;
  finished_at = some now;
  error_message = none;
}

abbrev pub reap_running : ℕ → Job → Job
reap_running now job = record job {
  status = failed;
  error_message = some "worker restarted";
  finished_at = some now;
}

-- The jobs after both updates, and how many rows they returned.
unfoldable pub reap_zombie_jobs : ℕ → String → Db → ℕ × Db
reap_zombie_jobs now worker_hostname db =
    let stopping = is_at worker_hostname cancelling in
    let runs = is_at worker_hostname running in
    let jobs = update_where stopping (reap_cancelling now) db.jobs in
    (
      count stopping db.jobs + count runs jobs,
      record db { jobs = update_where runs (reap_running now) jobs },
    )

abbrev pub is_queued : Job → Bool
is_queued job = status_code job.status == status_code queued

abbrev pub to_running : ℕ → String → Job → Job
to_running now worker_hostname job = record job {
  status = running;
  worker_id = some worker_hostname;
  started_at = some now;
}

unfoldable pub mark_job_running : ℕ → ℕ → String → Db → Option Job × Db
mark_job_running now job_id worker_hostname db = elim (find_job job_id db) [
  | none ↦ (none, db)
  | some job ↦
      if is_queued job
      then (
        some (to_running now worker_hostname job),
        update_job job_id (to_running now worker_hostname) db,
      )
      else (none, db)
]

-- The keyword arguments of `finalize_job`.
pub record Final : Type 0 where
  pub status : JobStatus
  pub exit_code : Option ℕ
  pub error_message : Option String
  pub log_tail : Text
  pub mlflow_run_id : Option String
  pub artifact_error : Option String

-- A value that is not None, or the one from before.
abbrev pub or_kept : Option String → Option String → Option String
or_kept none kept = kept
or_kept (some x) kept = some x

abbrev pub to_final : ℕ → Final → Job → Job
to_final now f job = record job {
  status = f.status;
  exit_code = f.exit_code;
  error_message = f.error_message;
  finished_at = some now;
  mlflow_run_id = or_kept f.mlflow_run_id job.mlflow_run_id;
  artifact_error = or_kept f.artifact_error job.artifact_error;
}

-- A text fits in a column of so many characters.
abbrev pub fits : ℕ → Option String → Bool
fits width none = true
fits width (some x) = leb (length (codes x)) width

-- Whether the texts fit in the columns of the row: the commit raises if one does not. Texts are
-- taken to hold no NUL, which the database refuses in any of them.
unfoldable pub fits_columns : Final → Bool
fits_columns f = fits 1024 f.error_message && fits 64 f.mlflow_run_id && fits 1024 f.artifact_error

-- The log row of a tail that is not empty.
abbrev pub log_rows : ℕ → Text → List JobLog
log_rows job_id [] = []
log_rows job_id (c ∷ s) = record { job_id = job_id; content = c ∷ s } ∷ []

-- The rows after `finalize_job`, which stay as they are if the commit raises.
unfoldable pub finalize_job : ℕ → ℕ → Final → Db → Db
finalize_job now job_id f db = elim (find_job job_id db) [
  | none ↦ db
  | some job ↦
      if fits_columns f
      then record (update_job job_id (to_final now f) db) {
        job_logs = db.job_logs ++ log_rows job_id f.log_tail;
      }
      else db
]

-- Whether `finalize_job` raises.
unfoldable pub finalize_raises : ℕ → Final → Db → Bool
finalize_raises job_id f db = is_some (find_job job_id db) && not (fits_columns f)

abbrev pub set_db : Machine → Db → Machine
set_db m db = record m { cloud = record m.cloud { world = record m.cloud.world { db = db } } }

-- How a container that was not cancelled ended: status, error message and exit code.
unfoldable pub outcome : ContainerRunResult → JobStatus × Option String × Option ℕ
outcome r =
    let timed_out : Bool =
      r.timed_out || elim r.error_message [ none ↦ false | some e ↦ str_eq e "timeout" ] in
    let ended : JobStatus × Option String × Option ℕ = elim r.error_message [
      | some e ↦ (failed, some e, r.exit_code)
      | none ↦ elim r.exit_code [
        | none ↦ (failed, none, none)
        | some code ↦ if code == 0 then (succeeded, none, some 0) else (failed, none, some code)
      ]
    ] in
    if timed_out then (failed, some "timeout", r.exit_code) else ended

-- A text that is not empty is appended as a line.
abbrev pub with_error : Text → Option String → Text
with_error tail none = tail
with_error tail (some e) = elim (codes e) [ [] ↦ tail | c ∷ s ↦ tail ++ (c ∷ s) ++ b'\n' ∷ [] ]

-- What the `try` around the promotion makes of it.
abbrev pub artifact_error_of : Outside → Promoted → Option String
artifact_error_of o (ok p) = p.1
artifact_error_of o (err e) = some (concat "artifact upload failed: " (o.describe e))

abbrev pub is_success : JobStatus → Bool
is_success JobStatus.succeeded = true
is_success _ = false

-- The promotion that a success with outputs makes.
unfoldable pub promote :
    Settings
    → Printing
    → Outside
    → ℕ
    → ℕ
    → Source
    → JobStatus
    → Option (List OutputFile)
    → Cloud
    → Option String × Cloud
promote s str o now model_id src status none c = (none, c)
promote s str o now model_id src status (some files) c =
    let (promoted, c') = promote_outputs s str now model_id src (some files) c in
    if is_success status then (artifact_error_of o promoted, c') else (none, c)

-- The arguments of `finalize_job` for a container that was cancelled.
abbrev pub stopped_final : ContainerRunResult → Final
stopped_final r = record {
  status = cancelled;
  exit_code = none;
  error_message = none;
  log_tail = r.log_tail;
  mlflow_run_id = none;
  artifact_error = none;
}

-- Those for any other, with what came of its outputs.
abbrev pub ended_final : Outside → Source → ContainerRunResult → Option String → Final
ended_final o src r artifact_error =
    let ended = outcome r in
    record {
      status = ended.0;
      exit_code = ended.2;
      error_message = ended.1;
      log_tail = with_error r.log_tail artifact_error;
      mlflow_run_id =
          if is_success ended.0 then o.lookup_mlflow_run_id src.job_name src.job_id else none;
      artifact_error = artifact_error;
    }

-- `finalize_job` and then the event, unless the commit raises, which ends the agent.
abbrev pub finalized : ℕ → ℕ → Final → Eof → Machine → Machine
finalized now job_id f event m =
    if finalize_raises job_id f m.cloud.world.db
    then record m { crashed = true }
    else record (set_db m (finalize_job now job_id f m.cloud.world.db)) {
      published = (job_id, event) ∷ m.published;
    }

unfoldable pub apply_container_result :
    Settings → Printing → Outside → ℕ → ℕ → Source → ContainerRunResult → Machine → Machine
apply_container_result s str o now model_id src r m =
    let ended = outcome r in
    let (artifact_error, c) = promote s str o now model_id src ended.0 r.outputs_dir m.cloud in
    if r.cancelled
    then finalized now src.job_id (stopped_final r) eof_cancelled m
    else finalized now src.job_id (ended_final o src r artifact_error) (eof ended.2)
        (record m { cloud = c })
