-- ===== src/Jobs.antt =====
-- api/routers/jobs.py, api/queue.py and api/job_control.py: the routes of jobs. `require_scopes` has
-- let the principal through (Auth); the body is a validated `SubmitJobRequest`.
pub mod Spec
pub mod Ownership
pub mod Submission
pub mod Keeping
use perzforge.Prelude.{
  ℕ, ◌+◌, ◌-◌, ◌≡◌, Bool, true, false, not, ◌&&◌, ◌||◌, Option, none, some, List, [], ◌∷◌, ◌++◌,
  String, Text, concat, map, find?, count, filter, update_where, length, ltb, leb, ◌==◌,
  if◌then◌else◌,
}
use perzforge.Settings.{Settings}
use perzforge.Schema.{
  User, UserRole, ApiKey, Job, JobSpec, JobStatus, queued, running, cancelling, succeeded, failed,
  cancelled, Db, is_admin,
}
use perzforge.Http.{Result, ok, err, Error, http, value_error, then_run, ◌>>=◌}
use perzforge.Quota.{World, enforce, concurrent_jobs, jobs_per_day}
use perzforge.Jobs.Spec.{is_valid_spec}
use perzforge.Pagination.{page}

-- api/deps.py
pub record Principal : Type 0 where
  pub user : User
  pub api_key : Option ApiKey

-- The database, the quota counters, the list at JOB_QUEUE_KEY with its newest id first, and the jobs
-- whose control channel got a cancel command, newest first.
pub record Platform : Type 0 where
  pub world : World
  pub queue : List ℕ
  pub cancels : List ℕ

pub record JobResponse : Type 0 where
  pub id : ℕ
  pub name : Text
  pub spec : JobSpec
  pub status : JobStatus
  pub queued_at : ℕ
  pub started_at : Option ℕ
  pub finished_at : Option ℕ
  pub worker_id : Option String
  pub exit_code : Option ℕ
  pub error_message : Option String
  pub mlflow_run_id : Option String
  pub artifact_error : Option String

-- TERMINAL_JOB_STATUSES
abbrev pub is_terminal : JobStatus → Bool
is_terminal JobStatus.succeeded = true
is_terminal JobStatus.failed = true
is_terminal JobStatus.cancelled = true
is_terminal _ = false

abbrev pub response_of : Job → JobResponse
response_of job = record {
  id = job.id;
  name = job.name;
  spec = job.spec;
  status = job.status;
  queued_at = job.queued_at;
  started_at = job.started_at;
  finished_at = job.finished_at;
  worker_id = job.worker_id;
  exit_code = job.exit_code;
  error_message = job.error_message;
  mlflow_run_id = job.mlflow_run_id;
  artifact_error = job.artifact_error;
}

-- The response validates the stored specification again.
unfoldable pub to_job_response : Settings → Job → Result JobResponse
to_job_response s job =
    if is_valid_spec s job.spec then ok (response_of job) else err (value_error "invalid job spec")

abbrev pub find_job : ℕ → Db → Option Job
find_job job_id db = find? (λ j. j.id == job_id) db.jobs

-- The row of a job with its fields assigned.
abbrev pub update_job : ℕ → (Job → Job) → Db → Db
update_job job_id f db = record db { jobs = update_where (λ j. j.id == job_id) f db.jobs }

abbrev pub job_not_found : Error
job_not_found = http 404 "Job not found"

abbrev pub owned : Principal → Option Job → Result Job
owned principal none = err job_not_found
owned principal (some job) =
    if not (job.user_id == principal.user.id) && not (is_admin principal.user.role)
    then err job_not_found
    else ok job

unfoldable pub get_owned_job : Db → ℕ → Principal → Result Job
get_owned_job db job_id principal = owned principal (find_job job_id db)

abbrev pub set_db : Platform → Db → Platform
set_db p db = record p { world = record p.world { db = db } }

-- LPUSH at JOB_QUEUE_KEY; `some` is the exception of a queue that does not answer.
unfoldable pub enqueue_job : Option String → ℕ → Platform → Option String × Platform
enqueue_job none job_id p = (none, record p { queue = job_id ∷ p.queue })
enqueue_job (some exc) job_id p = (some exc, p)

pub record SubmitJobRequest : Type 0 where
  pub name : Text
  pub spec : JobSpec

abbrev pub new_job : ℕ → ℕ → SubmitJobRequest → ℕ → Job
new_job now job_id body user_id = record {
  id = job_id;
  user_id = user_id;
  name = body.name;
  spec = body.spec;
  status = queued;
  queued_at = now;
  started_at = none;
  finished_at = none;
  worker_id = none;
  exit_code = none;
  error_message = none;
  mlflow_run_id = none;
  artifact_error = none;
}

-- What the `except` around the enqueueing does to the job.
abbrev pub enqueue_failed : ℕ → Option String → Job → Job
enqueue_failed now none job = job
enqueue_failed now (some exc) job = record job {
  status = failed;
  error_message = some (concat "Queue enqueue failed: " exc);
  finished_at = some now;
}

-- The rows and the queue after both quotas let the job through.
unfoldable pub insert_job :
    Settings
    → ℕ
    → ℕ
    → Option String
    → SubmitJobRequest
    → Principal
    → Platform
    → Result JobResponse × Platform
unfolding enqueue_job
insert_job s now job_id broken body principal p =
    let job = new_job now job_id body principal.user.id in
    let db = record p.world.db { jobs = p.world.db.jobs ++ job ∷ [] } in
    let (exc, p') = enqueue_job broken job_id (set_db p db) in
    (
      to_job_response s (enqueue_failed now exc job),
      set_db p' (update_job job_id (enqueue_failed now exc) p'.world.db),
    )

unfoldable pub submit_job :
    Settings
    → ℕ
    → ℕ
    → Option String
    → SubmitJobRequest
    → Principal
    → Platform
    → Result JobResponse × Platform
submit_job s now job_id broken body principal p =
    let (r₁, w₁) = enforce s now principal.user concurrent_jobs 1 p.world in
    then_run (r₁, record p { world = w₁ })
      λ _ p₁.
        let (r₂, w₂) = enforce s now principal.user jobs_per_day 1 p₁.world in
        then_run (r₂, record p₁ { world = w₂ })
          λ _ p₂. insert_job s now job_id broken body principal p₂

abbrev pub status_code : JobStatus → ℕ
status_code JobStatus.queued = 0
status_code JobStatus.running = 1
status_code JobStatus.cancelling = 2
status_code JobStatus.succeeded = 3
status_code JobStatus.failed = 4
status_code JobStatus.cancelled = 5

abbrev pub has_status : Option JobStatus → Job → Bool
has_status none job = true
has_status (some status) job = status_code job.status == status_code status

abbrev pub all_responses : Settings → List Job → Result (List JobResponse)
all_responses s [] = ok []
all_responses s (job ∷ jobs) =
    to_job_response s job >>= λ r. (all_responses s jobs >>= λ rs. ok (r ∷ rs))

-- The items and the total.
unfoldable pub list_jobs :
    Settings → Option JobStatus → ℕ → ℕ → Principal → Db → Result (List JobResponse × ℕ)
list_jobs s status_filter limit offset principal db =
    let rows = filter (λ j. j.user_id == principal.user.id && has_status status_filter j) db.jobs in
    all_responses s (page (λ j. j.queued_at) limit offset rows) >>= λ items. ok (items, length rows)

unfoldable pub get_job : Settings → ℕ → Principal → Db → Result JobResponse
get_job s job_id principal db = get_owned_job db job_id principal >>= to_job_response s

abbrev pub job_already_finished : Error
job_already_finished = http 409 "job already finished"

abbrev pub to_cancelled : ℕ → Job → Job
to_cancelled now job = record job { status = cancelled; finished_at = some now }

abbrev pub to_cancelling : Job → Job
to_cancelling job = record job { status = cancelling }

-- The rest of `cancel_job`, by the status of the row that was read.
unfoldable pub cancel_owned :
    Settings → ℕ → Job → JobStatus → Platform → Result JobResponse × Platform
cancel_owned s now job JobStatus.queued p = (
  to_job_response s (to_cancelled now job),
  set_db p (update_job job.id (to_cancelled now) p.world.db),
)
cancel_owned s now job JobStatus.running p = (
  to_job_response s (to_cancelling job),
  record (set_db p (update_job job.id to_cancelling p.world.db)) { cancels = job.id ∷ p.cancels },
)
cancel_owned s now job status p = (err job_already_finished, p)

abbrev pub cancel_found : Settings → ℕ → Result Job → Platform → Result JobResponse × Platform
cancel_found s now (ok job) p = cancel_owned s now job job.status p
cancel_found s now (err e) p = (err e, p)

unfoldable pub cancel_job : Settings → ℕ → ℕ → Principal → Platform → Result JobResponse × Platform
cancel_job s now job_id principal p =
    cancel_found s now (get_owned_job p.world.db job_id principal) p
