-- ===== src/Worker/Lifecycle.antt =====
-- The life of a job when the API (routers/jobs.py) and one worker agent (worker/agent.py) work on
-- the same rows: the steps of both, in any order.
pub mod Ended
pub mod Busy
pub mod Forever
use perzforge.Prelude.{
  ℕ, ◌+◌, ◌≡◌, ◌≢◌, refl, sym, ap, ◌∙◌, Bool, true, false, not, ◌&&◌, ◌||◌, Option, none, some,
  String, List, [], ◌∷◌, ◌++◌, find?, update_where, find?-update_ne, find?-update_self, find?-holds,
  str_eq, eq_iff, arith, Bool-cases, Option-cases, inl, inr, ◌==◌, if◌then◌else◌, map,
}
use perzforge.Settings.{Settings}
use perzforge.Schema.{Job, JobStatus, queued, running, cancelling, succeeded, failed, cancelled, Db}
use perzforge.Storage.{Printing}
use perzforge.Jobs.{
  Principal, Platform, find_job, update_job, is_terminal, status_code, submit_job, SubmitJobRequest,
  cancel_job, to_cancelled, to_cancelling,
}
use perzforge.Registry.{Source}
use perzforge.Worker.{
  ContainerRunResult, Machine, Outside, Final, finalize_job, to_final, to_running,
  apply_container_result, reap_zombie_jobs,
}
use perzforge.Worker.{mark_job_running, is_queued}
use perzforge.Worker.Agent.{take_job, source_of, invalid_spec}
use perzforge.Jobs.Spec.{is_valid_spec}

-- The rows, and the job whose container the agent runs.
pub record Site : Type 0 where
  pub db : Db
  pub current : Option Job

pub data Step (host : String) : Site → Site → Type 0 where
  -- a submission under a fresh id
  submits :
      {current : Option Job} (s : Settings) (now job_id : ℕ) (broken : Option String)
      (body : SubmitJobRequest) (principal : Principal) (p : Platform)
      (fresh : find_job job_id p.world.db ≡ none)
      → Step host
          (record { db = p.world.db; current = current })
          (record {
            db = (submit_job s now job_id broken body principal p).1.world.db;
            current = current;
          })
  -- a request to cancel
  cancels :
      {current : Option Job} (s : Settings) (now job_id : ℕ) (principal : Principal) (p : Platform)
      → Step host
          (record { db = p.world.db; current = current })
          (record { db = (cancel_job s now job_id principal p).1.world.db; current = current })
  -- the agent, which runs nothing, takes an identifier from the queue
  takes :
      (s : Settings) (o : Outside) (now job_id : ℕ) (db : Db)
      → Step host
          (record { db = db; current = none })
          (record {
            db = (take_job s o now job_id host db).1;
            current = (take_job s o now job_id host db).0;
          })
  -- the container of the job ends
  finishes :
      (s : Settings) (str : Printing) (o : Outside) (now model_id : ℕ) (job : Job)
      (r : ContainerRunResult) (m : Machine)
      → Step host
          (record { db = m.cloud.world.db; current = some job })
          (record {
            db = (apply_container_result s str o now model_id (source_of job) r m).cloud.world.db;
            current = none;
          })
  -- the agent stops, and starts again
  restarts :
      {current : Option Job} (now : ℕ) (db : Db)
      → Step host
          (record { db = db; current = current })
          (record { db = (reap_zombie_jobs now host db).1; current = none })

pub data Steps (host : String) : Site → Site → Type 0 where
  done : {a : Site} → Steps host a a
  further : {a b c : Site} → Step host a b → Steps host b c → Steps host a c

abbrev pub has_ended : Option Job → Bool
has_ended none = false
has_ended (some job) = is_terminal job.status

-- A job that a worker has in hand.
abbrev pub is_busy : Option Job → Bool
is_busy none = false
is_busy (some job) = status_code job.status == 1 || status_code job.status == 2

abbrev pub IsOpen : Db → Option Job → Type 0
IsOpen db none = Unit
IsOpen db (some job) = is_busy (find_job job.id db) ≡ true

-- The row of the job whose container runs is there, RUNNING or CANCELLING.
abbrev pub IsSound : Site → Type 0
IsSound a = IsOpen a.db a.current
