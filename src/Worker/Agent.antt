-- ===== src/Worker/Agent.antt =====
-- worker/agent.py: `process_job` and `run_loop`. What the queue yields, and the times at which the
-- turns of the loop happen, are given.
use perzforge.Prelude.{
  ℕ, ◌*◌, Bool, false, not, ◌&&◌, ◌||◌, Option, none, some, List, [], ◌∷◌, String, if◌then◌else◌,
}
use perzforge.Settings.{Settings}
use perzforge.Schema.{Job, failed, Db}
use perzforge.Jobs.{find_job}
use perzforge.Jobs.Spec.{is_valid_spec}
use perzforge.Storage.{Printing}
use perzforge.Registry.{Source}
use perzforge.Worker.{
  Machine, Outside, Final, is_queued, mark_job_running, finalize_job, finalize_raises,
  reap_zombie_jobs, set_db, apply_container_result,
}
use perzforge.Prelude.{concat}
use perzforge.Worker.Lock.{LockKey, acquire, refresh, release_lock}

abbrev pub invalid_spec : Outside → Job → Final
invalid_spec o job = record {
  status = failed;
  exit_code = none;
  error_message = some (concat "invalid job spec: " (o.describe_spec job.spec));
  log_tail = [];
  mlflow_run_id = none;
  artifact_error = none;
}

-- `process_job` up to the container: the job that now runs, if one does.
unfoldable pub take_job : Settings → Outside → ℕ → ℕ → String → Db → Option Job × Db
take_job s o now job_id worker_hostname db = elim (find_job job_id db) [
  | none ↦ (none, db)
  | some job ↦
      if is_queued job
      then (if is_valid_spec s job.spec
          then mark_job_running now job_id worker_hostname db
          else (none, finalize_job now job_id (invalid_spec o job) db))
      else (none, db)
]

-- Whether the writing of an invalid specification raises.
abbrev pub take_raises : Settings → Outside → ℕ → Db → Bool
take_raises s o job_id db = elim (find_job job_id db) [
  | none ↦ false
  | some job ↦
      is_queued job
      && not (is_valid_spec s job.spec)
      && finalize_raises job_id (invalid_spec o job) db
]

abbrev pub source_of : Job → Source
source_of job = record {
  job_id = job.id;
  user_id = job.user_id;
  job_name = job.name;
  framework = none;
}

-- A turn of the loop: when the lock is refreshed, what the queue yields, when the job starts and
-- ends, and the identifier that a model of its outputs would get.
pub record Turn : Type 0 where
  pub refreshed_at : ℕ
  pub item : Option ℕ
  pub started_at : ℕ
  pub ended_at : ℕ
  pub model_id : ℕ

-- From the container on.
abbrev pub run_taken : Settings → Printing → Outside → Turn → Option Job × Db → Machine → Machine
run_taken s str o turn (none, db) m = set_db m db
run_taken s str o turn (some job, db) m =
    apply_container_result s str o turn.ended_at turn.model_id (source_of job)
      (o.run_container job.spec job.id (job.spec.timeout_minutes * 60) job.name) (set_db m db)

unfoldable pub process_job : Settings → Printing → Outside → Turn → ℕ → String → Machine → Machine
process_job s str o turn job_id worker_hostname m =
    run_taken s str o turn (take_job s o turn.started_at job_id worker_hostname m.cloud.world.db)
      (record m { crashed = m.crashed || take_raises s o job_id m.cloud.world.db })

abbrev pub process_item :
    Settings → Printing → Outside → Turn → Option ℕ → String → Machine → Machine
process_item s str o turn none worker_hostname m = m
process_item s str o turn (some job_id) worker_hostname m =
    process_job s str o turn job_id worker_hostname m

-- The `while True`, over the turns that happen before it is stopped from outside or by an exception;
-- the lock is the key that the agent's own calls leave, with no other call between a GET and what
-- follows it.
unfoldable pub run_turns :
    Settings
    → Printing
    → Outside
    → String
    → String
    → List Turn
    → LockKey × Machine
    → LockKey × Machine
run_turns s str o token worker_hostname [] (key, m) = (key, m)
run_turns s str o token worker_hostname (turn ∷ turns) (key, m) =
    let (held, key') = refresh s token turn.refreshed_at key turn.refreshed_at key in
    let m' = process_item s str o turn turn.item worker_hostname m in
    let rest = run_turns s str o token worker_hostname turns (key', m') in
    if held then (if m'.crashed then (key', m') else rest) else (key', m)

-- The whole loop of an agent that starts at `now` and is stopped at `until`.
unfoldable pub run_loop :
    Settings
    → Printing
    → Outside
    → String
    → String
    → ℕ
    → ℕ
    → List Turn
    → LockKey × Machine
    → LockKey × Machine
run_loop s str o token worker_hostname now until turns (key, m) =
    let (held, key') = acquire s token now key in
    let (reaped, db) = reap_zombie_jobs now worker_hostname m.cloud.world.db in
    let (key'', m') = run_turns s str o token worker_hostname turns (key', set_db m db) in
    if held then (release_lock token until key'' key'', m') else (key', m)
