-- ===== src/Jobs/Submission.antt =====
-- What submitting and cancelling do to the rows, the queue and the quota.
use perzforge.Prelude.{
  ℕ, ◌+◌, ◌≤◌, ◌<◌, ◌≡◌, ◌⊎◌, refl, sym, ap, ◌∙◌, Bool, ◌&&◌, Option, none, some, List, [], ◌∷◌,
  ◌++◌, String, concat, find?, count, update_where, arith, inl, inr, ◌==◌, count-append,
  update_where-append, update_where-fresh, ==_refl,
}
use perzforge.Settings.{Settings}
use perzforge.Schema.{Job, JobStatus, queued, failed, Db}
use perzforge.Http.{Result, ok, err, Error, quota_exceeded, Result-cases}
use perzforge.Quota.{
  World, enforce, concurrent_jobs, jobs_per_day, current_usage, count_concurrent_jobs, is_active,
}
use perzforge.Quota.Enforce.{limit_of, enforce-ok, enforce-exceeded, enforce-jobs}
use perzforge.Jobs.{
  Principal, Platform, SubmitJobRequest, new_job, enqueue_failed, insert_job, submit_job,
  JobResponse, to_job_response, find_job,
}

-- A row of the user as it was submitted: the status, the time of the end and the message are given.
abbrev pub row_with :
    ℕ → ℕ → SubmitJobRequest → Principal → JobStatus → Option ℕ → Option String → Job
row_with now job_id body principal status finished_at message = record {
  id = job_id;
  user_id = principal.user.id;
  name = body.name;
  spec = body.spec;
  status = status;
  queued_at = now;
  started_at = none;
  finished_at = finished_at;
  worker_id = none;
  exit_code = none;
  error_message = message;
  mlflow_run_id = none;
  artifact_error = none;
}

-- The row that a submission adds: queued, or failed if the queue did not answer.
abbrev pub submitted : ℕ → ℕ → Option String → SubmitJobRequest → Principal → Job
submitted now job_id none body principal = row_with now job_id body principal queued none none
submitted now job_id (some exc) body principal =
    row_with now job_id body principal failed (some now)
      (some (concat "Queue enqueue failed: " exc))

-- The queue after it.
abbrev pub queue_after : Option String → ℕ → List ℕ → List ℕ
queue_after none job_id queue = job_id ∷ queue
queue_after (some exc) job_id queue = queue

update_new :
    (f : Job → Job) (job : Job) (jobs : List Job)
    → find? (λ j. j.id == job.id) jobs ≡ none
    → update_where (λ j. j.id == job.id) f (jobs ++ job ∷ []) ≡ jobs ++ f job ∷ []
update_new f job jobs fresh =
    let p = λ (j : Job). j.id == job.id in
    update_where-append p f jobs (job ∷ [])
    ∙ rw (update_where-fresh p f jobs fresh, ==_refl job.id) refl

-- The state after the row is added and its id is pushed.
pub insert_job-state :
    (s : Settings) (now job_id : ℕ) (broken : Option String) (body : SubmitJobRequest)
    (principal : Principal) (p : Platform)
    → find_job job_id p.world.db ≡ none
    → let p' = (insert_job s now job_id broken body principal p).1 in
      (p'.world.db.jobs ≡ p.world.db.jobs ++ submitted now job_id broken body principal ∷ [])
      × (p'.world.counters ≡ p.world.counters)
      × (p'.queue ≡ queue_after broken job_id p.queue)
unfolding insert_job
insert_job-state s now job_id none body principal p fresh = (
  update_new (λ j. j) (new_job now job_id body principal.user.id) p.world.db.jobs fresh,
  refl,
  refl,
)
insert_job-state s now job_id (some exc) body principal p fresh = (
  update_new (enqueue_failed now (some exc)) (new_job now job_id body principal.user.id)
      p.world.db.jobs fresh,
  refl,
  refl,
)

-- The two states between: after the first quota, and after the second.
abbrev pub after_concurrent : Settings → ℕ → Principal → Platform → World
after_concurrent s now principal p = (enforce s now principal.user concurrent_jobs 1 p.world).1

abbrev pub after_daily : Settings → ℕ → Principal → Platform → World
after_daily s now principal p =
    (enforce s now principal.user jobs_per_day 1 (after_concurrent s now principal p)).1

-- A submission does one of three things: it fails at a quota or at the other, or adds the row.
pub submit_job-cases :
    (s : Settings) (now job_id : ℕ) (broken : Option String) (body : SubmitJobRequest)
    (principal : Principal) (p : Platform)
    → ((e : Error) × ((enforce s now principal.user concurrent_jobs 1 p.world).0 ≡ err e)
        × (submit_job s now job_id broken body principal p
            ≡ (err e, record p { world = after_concurrent s now principal p })))
      ⊎ (((e : Error) × ((enforce s now principal.user jobs_per_day 1
                (after_concurrent s now principal p)).0
              ≡ err e)
            × (submit_job s now job_id broken body principal p
                ≡ (err e, record p { world = after_daily s now principal p })))
          ⊎ (((enforce s now principal.user concurrent_jobs 1 p.world).0 ≡ ok tt)
              × (submit_job s now job_id broken body principal p
                  ≡ insert_job s now job_id broken body principal
                      (record p { world = after_daily s now principal p }))))
unfolding submit_job
submit_job-cases s now job_id broken body principal p =
    elim (Result-cases (enforce s now principal.user concurrent_jobs 1 p.world).0) [
      | inl (e, refused) ↦ inl (e, refused, rw refused)
      | inr passed ↦
          elim (Result-cases
            (enforce s now principal.user jobs_per_day 1 (after_concurrent s now principal p)).0) [
              | inl (e, refused) ↦ inr (inl (e, refused, rw (passed, refused)))
              | inr passed_too ↦ inr (inr (passed, rw (passed, passed_too)))
            ]
    ]

count-one : (p : Job → Bool) (job : Job) → count p (job ∷ []) ≤ 1
count-one p job = ground arith

within_after :
    (s : Settings) (now : ℕ) (job : Job) (db : Db) (principal : Principal) (p : Platform)
    → db.jobs ≡ p.world.db.jobs ++ job ∷ []
    → (enforce s now principal.user concurrent_jobs 1 p.world).0 ≡ ok tt
    → count_concurrent_jobs db principal.user.id ≤ limit_of s p.world principal.user concurrent_jobs
unfolding count_concurrent_jobs current_usage
within_after s now job db principal p added passed =
    let active = λ (j : Job). j.user_id == principal.user.id && is_active j.status in
    let fits = ((enforce-ok s now principal.user concurrent_jobs 1 p.world).0 passed).1 in
    rw added
      (rw (count-append active p.world.db.jobs (job ∷ [])) (omega (arith, count-one active job)))

not_both :
    {r : JobResponse} {e : Error} {q : Platform} {out : Result JobResponse × Platform}
    → out ≡ (err e, q)
    → out.0 ≡ ok r
    → ⊥
not_both {out = o} out h = cc (ap (λ (x : Result JobResponse × Platform). x.0) out)

same_error :
    {e f : Error} {q : Platform} {out : Result JobResponse × Platform}
    → out ≡ (err e, q)
    → out.0 ≡ err f
    → e ≡ f
same_error {out = o} out h = cc (ap (λ (x : Result JobResponse × Platform). x.0) out)

response_not_quota :
    (s : Settings) (job : Job) {name : String} {limit current : ℕ}
    → to_job_response s job ≡ err (quota_exceeded name limit current)
    → ⊥
unfolding to_job_response
response_not_quota s job h = ground arith

pub jobs-after_daily :
    (s : Settings) (now : ℕ) (principal : Principal) (p : Platform)
    → (after_daily s now principal p).db.jobs ≡ p.world.db.jobs
jobs-after_daily s now principal p =
    (enforce-jobs s now principal.user jobs_per_day 1 (after_concurrent s now principal p)).0
    ∙ (enforce-jobs s now principal.user concurrent_jobs 1 p.world).0

module _ (s : Settings) (now job_id : ℕ) (broken : Option String) (body : SubmitJobRequest)
    (principal : Principal) (p : Platform) where
  -- A submission under a fresh id that goes through adds exactly one row at the end, with the
  -- caller, the name and the specification that were sent: QUEUED, with its id at the head of the
  -- queue, or, if Redis did not take it, FAILED with the time and a message, and the queue as it
  -- was. The user then has no more active jobs than the limit allows.
  pub submit_job-accepted :
      (r : JobResponse)
      → find_job job_id p.world.db ≡ none
      → (submit_job s now job_id broken body principal p).0 ≡ ok r
      → let p' = (submit_job s now job_id broken body principal p).1 in
        (p'.world.db.jobs ≡ p.world.db.jobs ++ submitted now job_id broken body principal ∷ [])
        × (p'.queue ≡ queue_after broken job_id p.queue)
        × (count_concurrent_jobs p'.world.db principal.user.id
            ≤ limit_of s p.world principal.user concurrent_jobs)
  submit_job-accepted r fresh h = elim (submit_job-cases s now job_id broken body principal p) [
    | inl (e, refused, out) ↦ absurd (not_both out h)
    | inr (inl (e, refused, out)) ↦ absurd (not_both out h)
    | inr (inr (passed, out)) ↦
        let q : Platform = record p { world = after_daily s now principal p } in
        let jobs = jobs-after_daily s now principal p in
        let state =
          insert_job-state s now job_id broken body principal q
            (ap (λ l. find? (λ j. j.id == job_id) l) jobs ∙ fresh) in
        let added = state.0 ∙ ap (λ l. l ++ submitted now job_id broken body principal ∷ []) jobs in
        rw out (
          added,
          state.2,
          within_after s now (submitted now job_id broken body principal)
              (insert_job s now job_id broken body principal q).1.world.db principal p added passed,
        )
  ]

  -- A submission that a quota refuses adds no row and queues nothing.
  pub submit_job-refused :
      (name : String) (limit current : ℕ)
      → (submit_job s now job_id broken body principal p).0
        ≡ err (quota_exceeded name limit current)
      → let p' = (submit_job s now job_id broken body principal p).1 in
        (p'.world.db.jobs ≡ p.world.db.jobs) × (p'.queue ≡ p.queue) × (limit < current + 1)
  unfolding insert_job
  submit_job-refused name limit current h =
      elim (submit_job-cases s now job_id broken body principal p) [
        | inl (e, refused, out) ↦
            let same = refused ∙ ap (λ x. err x) (same_error out h) in
            let why =
              enforce-exceeded s now principal.user concurrent_jobs 1 p.world name limit current
                same in
            rw out ((enforce-jobs s now principal.user concurrent_jobs 1 p.world).0, refl, why.2)
        | inr (inl (e, refused, out)) ↦
            let same = refused ∙ ap (λ x. err x) (same_error out h) in
            let why =
              enforce-exceeded s now principal.user jobs_per_day 1
                (after_concurrent s now principal p) name limit current same in
            rw out (jobs-after_daily s now principal p, refl, why.2)
        | inr (inr (passed, out)) ↦ absurd (response_not_quota s _ (ap (λ x. x.0) (sym out) ∙ h))
      ]
