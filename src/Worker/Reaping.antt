-- ===== src/Worker/Reaping.antt =====
-- `reap_zombie_jobs` of worker/repository.py.
use perzforge.Prelude.{
  ℕ, ◌+◌, ◌≡◌, refl, ap₂, Bool, false, ◌&&◌, ◌||◌, String, str_eq, ◌==◌, none, some, List, [], ◌∷◌,
  count, update_where, arith, if◌then◌else◌, map,
}
use perzforge.Schema.{Job, JobStatus, running, cancelling, cancelled, failed, Db}
use perzforge.Jobs.{status_code}
use perzforge.Worker.{is_at, reap_cancelling, reap_running, reap_zombie_jobs}

-- The job has a status and belongs to the worker of a host.
abbrev pub is_held : String → JobStatus → Job → Bool
is_held host status job = elim job.worker_id [
  | none ↦ false
  | some worker_id ↦ str_eq worker_id host && status_code job.status == status_code status
]

-- What becomes of one job: the half-cancelled of this worker are cancelled, the running fail.
abbrev pub reaped : ℕ → String → Job → Job
reaped now worker_hostname job =
    if is_held worker_hostname cancelling job
    then record job { status = cancelled; finished_at = some now; error_message = none }
    else if is_held worker_hostname running job
    then record job {
      status = failed;
      finished_at = some now;
      error_message = some "worker restarted";
    }
    else job

-- The jobs that a worker has in its hands.
abbrev pub is_zombie : String → Job → Bool
is_zombie worker_hostname job =
    is_held worker_hostname cancelling job || is_held worker_hostname running job

one :
    (now : ℕ) (host : String) (job : Job)
    → (let c = if is_at host cancelling job then reap_cancelling now job else job in
        ((if is_at host running c then reap_running now c else c) ≡ reaped now host job)
        × (is_at host running c ≡ is_at host running job))
      × (is_zombie host (reaped now host job) ≡ false)
      × ((is_at host cancelling job && is_at host running job) ≡ false)
one now host job = ground arith

-- Both updates one after the other.
abbrev swept : ℕ → String → List Job → List Job
swept now host jobs =
    update_where (is_at host running) (reap_running now)
      (update_where (is_at host cancelling) (reap_cancelling now) jobs)

tally :
    (c r : Bool) (m n k : ℕ)
    → (c && r) ≡ false
    → m + n ≡ k
    → (if c then 1 else 0) + m + ((if r then 1 else 0) + n) ≡ (if c || r then 1 else 0) + k
tally c r m n k apart h = ground arith

swept_lem :
    (now : ℕ) (host : String) (jobs : List Job)
    → (swept now host jobs ≡ map (reaped now host) jobs)
      × (count (is_at host cancelling) jobs
            + count
                (is_at host running)
                (update_where (is_at host cancelling) (reap_cancelling now) jobs)
          ≡ count (is_zombie host) jobs)
      × (count (is_zombie host) (swept now host jobs) ≡ 0)
swept_lem now host [] = (refl, refl, refl)
swept_lem now host (job ∷ jobs) =
    let ((settled, runs), none_left, apart) = one now host job in
    let (rows, number, zero_left) = swept_lem now host jobs in
    (
      ap₂ (λ (j : Job) (js : List Job). j ∷ js) settled rows,
      rw runs (
          tally (is_at host cancelling job) (is_at host running job)
            (count (is_at host cancelling) jobs)
            (count (is_at host running)
              (update_where (is_at host cancelling) (reap_cancelling now) jobs))
            (count (is_zombie host) jobs) apart number),
      rw (settled, none_left, zero_left) refl,
    )

-- Starting an agent settles exactly the jobs that its host had in hand: those that were being
-- cancelled become CANCELLED and those that ran become FAILED, each with the time. It leaves every
-- other job as it was; afterwards the host has none in hand, and the number
-- returned is the number of jobs that were settled.
pub reap_zombie_jobs-exactly :
    (now : ℕ) (host : String) (db : Db)
    → ((reap_zombie_jobs now host db).1.jobs ≡ map (reaped now host) db.jobs)
      × ((reap_zombie_jobs now host db).0 ≡ count (is_zombie host) db.jobs)
      × (count (is_zombie host) (reap_zombie_jobs now host db).1.jobs ≡ 0)
unfolding reap_zombie_jobs
reap_zombie_jobs-exactly now host db = swept_lem now host db.jobs
