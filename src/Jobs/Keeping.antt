-- ===== src/Jobs/Keeping.antt =====
-- Submitting a job of api/routers/jobs.py, seen by the jobs that are already there.
use perzforge.Prelude.{
  ℕ, ◌≡◌, ap, ◌∙◌, Option, none, some, List, [], ◌∷◌, String, find?, find?-append_some, inl, inr,
  ◌==◌,
}
use perzforge.Settings.{Settings}
use perzforge.Schema.{Job}
use perzforge.Quota.{concurrent_jobs}
use perzforge.Quota.Enforce.{enforce-jobs}
use perzforge.Jobs.{Principal, Platform, SubmitJobRequest, find_job, submit_job}
use perzforge.Jobs.Submission.{
  submitted, after_daily, submit_job-cases, insert_job-state, jobs-after_daily,
}

-- A submission under a fresh id, however it ends, leaves every job that is there.
pub submit_job-keeps :
    (s : Settings) (now job_id : ℕ) (broken : Option String) (body : SubmitJobRequest)
    (principal : Principal) (p : Platform) (k : ℕ) (job : Job)
    → find_job job_id p.world.db ≡ none
    → find_job k p.world.db ≡ some job
    → find_job k (submit_job s now job_id broken body principal p).1.world.db ≡ some job
submit_job-keeps s now job_id broken body principal p k job fresh there =
    let row = λ (js : List Job). find? (λ j. j.id == k) js in
    elim (submit_job-cases s now job_id broken body principal p) [
      | inl (e, refused, out) ↦
          rw out (ap row (enforce-jobs s now principal.user concurrent_jobs 1 p.world).0 ∙ there)
      | inr (inl (e, refused, out)) ↦ rw out (ap row (jobs-after_daily s now principal p) ∙ there)
      | inr (inr (passed, out)) ↦
          let q : Platform = record p { world = after_daily s now principal p } in
          let same = jobs-after_daily s now principal p in
          let state =
            insert_job-state s now job_id broken body principal q
              (ap (λ (js : List Job). find? (λ j. j.id == job_id) js) same ∙ fresh) in
          rw out (
            ap row state.0
            ∙ find?-append_some (λ j. j.id == k) q.world.db.jobs
                (submitted now job_id broken body principal ∷ []) job (ap row same ∙ there))
    ]
