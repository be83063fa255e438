-- ===== src/Worker/Lifecycle/Forever.antt =====
-- Runs of the API and one worker agent, and the jobs that have ended.
use perzforge.Prelude.{
  ℕ, ◌≡◌, refl, sym, ap, ◌∙◌, Option-cases, inl, inr, true, false, Option, none, some, String,
  arith,
}
use perzforge.Schema.{Job, Db}
use perzforge.Jobs.{find_job, is_terminal, cancel_job, submit_job}
use perzforge.Jobs.Keeping.{submit_job-keeps}
use perzforge.Worker.Agent.{source_of}
use perzforge.Worker.Lifecycle.{Site, Step, Steps, has_ended, is_busy, IsOpen, IsSound}
use perzforge.Worker.Lifecycle.{submits, cancels, takes, finishes, restarts, done, further}
use perzforge.Worker.Lifecycle.Ended.{take-keeps, apply-keeps, reap-keeps}
use perzforge.Worker.Lifecycle.Busy.{cancel_job-effect, effect-ended, effect-busy, take-busy}

open_not_ended : (o : Option Job) → is_busy o ≡ true → has_ended o ≡ false
open_not_ended none h = refl
open_not_ended (some job) h = ground arith

IsOpen-effect :
    (now : ℕ) (db db' : Db) (current : Option Job)
    → ((k : ℕ) → is_busy (find_job k db) ≡ true → is_busy (find_job k db') ≡ true)
    → IsOpen db current
    → IsOpen db' current
IsOpen-effect now db db' none keep h = tt
IsOpen-effect now db db' (some job) keep h = keep job.id h

still_busy :
    (k : ℕ) (db db' : Db)
    → ((row : Job) → find_job k db ≡ some row → find_job k db' ≡ some row)
    → is_busy (find_job k db) ≡ true
    → is_busy (find_job k db') ≡ true
still_busy k db db' keep busy = elim (Option-cases (find_job k db)) [
  | inl missing ↦ let idle : is_busy (find_job k db) ≡ false = rw missing refl in cc
  | inr (row, found) ↦ ap is_busy (keep row found) ∙ sym (ap is_busy found) ∙ busy
]

-- Every step keeps the job whose container runs in hand.
Step-IsSound : (host : String) (a b : Site) → Step host a b → IsSound a → IsSound b
Step-IsSound host a b (submits {current = current} s now job_id broken body principal p fresh)
      sound =
    IsOpen-effect now p.world.db (submit_job s now job_id broken body principal p).1.world.db
      current
      (λ k h.
        still_busy k p.world.db (submit_job s now job_id broken body principal p).1.world.db
          (λ row there. submit_job-keeps s now job_id broken body principal p k row fresh there) h)
      sound
Step-IsSound host a b (cancels {current = current} s now job_id principal p) sound =
    IsOpen-effect now p.world.db (cancel_job s now job_id principal p).1.world.db current
      (λ k h. effect-busy now k p.world.db _ (cancel_job-effect s now job_id principal p) h) sound
Step-IsSound host a b (takes s o now job_id db) sound = take-busy s o now job_id host db
Step-IsSound host a b (finishes s str o now model_id job r m) sound = tt
Step-IsSound host a b (restarts now db) sound = tt

-- No step touches a job that has ended.
Step-has_ended :
    (host : String) (a b : Site) (k : ℕ) (job : Job)
    → Step host a b
    → IsSound a
    → is_terminal job.status ≡ true
    → find_job k a.db ≡ some job
    → find_job k b.db ≡ some job
Step-has_ended host a b k job (submits s now job_id broken body principal p fresh) sound ended
      there =
    submit_job-keeps s now job_id broken body principal p k job fresh there
Step-has_ended host a b k job (cancels s now job_id principal p) sound ended there =
    effect-ended now k job p.world.db _ ended (cancel_job-effect s now job_id principal p) there
Step-has_ended host a b k job (takes s o now job_id db) sound ended there =
    take-keeps k job ended s o now job_id host db there
Step-has_ended host a b k job (finishes s str o now model_id taken r m) sound ended there =
    apply-keeps k job ended s str o now model_id (source_of taken) r m
      (open_not_ended (find_job taken.id m.cloud.world.db) sound) there
Step-has_ended host a b k job (restarts now db) sound ended there =
    reap-keeps k job ended now host db there

-- From a state in which the job whose container runs is RUNNING or CANCELLING, a job that has ended
-- stays exactly as it ended, whatever submissions under fresh ids, requests to cancel, jobs taken,
-- containers that end and restarts of the agent follow, if one agent works at a time.
pub ended_forever :
    (host : String) (a b : Site) (k : ℕ) (job : Job)
    → Steps host a b
    → IsSound a
    → find_job k a.db ≡ some job
    → is_terminal job.status ≡ true
    → find_job k b.db ≡ some job
ended_forever host a b k job done sound there ended = there
ended_forever host a b k job (further {b = c} step steps) sound there ended =
    ended_forever host c b k job steps (Step-IsSound host a c step sound)
      (Step-has_ended host a c k job step sound ended there) ended
