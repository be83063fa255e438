-- ===== src/Jobs/Ownership.antt =====
-- Who can see and reach a job.
use perzforge.Prelude.{
  ℕ, ◌≡◌, ◌≢◌, ◌↔◌, ◌⊎◌, refl, true, false, ◌&&◌, Option, some, List, [], ◌∷◌, map, filter, length,
  count, take, drop, Bool, arith, inl, inr, Option-cases, ◌==◌,
}
use perzforge.Settings.{Settings}
use perzforge.Schema.{Job, JobStatus, Db, is_admin}
use perzforge.Http.{Result, ok, err, Error, ◌>>=◌}
use perzforge.Jobs.{
  Principal, JobResponse, find_job, get_owned_job, job_not_found, list_jobs, has_status,
  response_of, to_job_response, all_responses, get_job, cancel_job, Platform,
}
use perzforge.Pagination.{order_desc, page}
use perzforge.Pagination.Laws.{IsNewestFirst, order_desc-IsNewestFirst, count-order_desc}

-- The job belongs to the principal, or the principal is an admin.
abbrev pub MayReach : Principal → Job → Type 0
MayReach principal job = (job.user_id ≡ principal.user.id) ⊎ (is_admin principal.user.role ≡ true)

-- A job is handed out exactly if it is there and the principal may reach it, and every refusal is
-- the same 404: the answer for another user's job is the answer for an id that does not exist.
pub get_owned_job-exactly :
    (db : Db) (job_id : ℕ) (principal : Principal)
    → ((job : Job)
        → (get_owned_job db job_id principal ≡ ok job)
          ↔ ((find_job job_id db ≡ some job) × MayReach principal job))
      × ((e : Error) → get_owned_job db job_id principal ≡ err e → e ≡ job_not_found)
unfolding get_owned_job
get_owned_job-exactly db job_id principal = elim (Option-cases (find_job job_id db)) [
  | inl missing ↦ rw missing ((λ job. ((λ h. cc), λ h. cc)), λ e h. cc)
  | inr (found, there) ↦
      rw there ((λ job. ((λ h. ground arith), λ h. ground arith)), λ e h. ground arith)
]

-- What the caller gets of another user's job is what he gets of a job that does not exist, for the
-- status as for cancelling, and nothing happens.
pub foreign_job_hidden :
    (s : Settings) (now job_id : ℕ) (principal : Principal) (p : Platform) (job : Job)
    → find_job job_id p.world.db ≡ some job
    → job.user_id ≢ principal.user.id
    → is_admin principal.user.role ≡ false
    → (get_job s job_id principal p.world.db ≡ err job_not_found)
      × (cancel_job s now job_id principal p ≡ (err job_not_found, p))
unfolding get_job cancel_job get_owned_job
foreign_job_hidden s now job_id principal p job found other plain =
    let foreign : (job.user_id == principal.user.id) ≡ false = ground arith in
    rw (found, foreign, plain) (refl, refl)

both_ok :
    (r : Result JobResponse) (rs : Result (List JobResponse)) (items : List JobResponse)
    → (r >>= λ x. (rs >>= λ xs. ok (x ∷ xs))) ≡ ok items
    → (x : JobResponse) × (xs : List JobResponse) × (r ≡ ok x) × (rs ≡ ok xs) × (items ≡ x ∷ xs)
both_ok (ok x) (ok xs) items h = (x, xs, refl, refl, ground arith)
both_ok (ok x) (err e) items h = cc
both_ok (err e) rs items h = cc

to_job_response-eq :
    (s : Settings) (job : Job) (r : JobResponse)
    → to_job_response s job ≡ ok r
    → r ≡ response_of job
unfolding to_job_response
to_job_response-eq s job r h = ground arith

all_responses-map :
    (s : Settings) (jobs : List Job) (items : List JobResponse)
    → all_responses s jobs ≡ ok items
    → items ≡ map response_of jobs
all_responses-map s [] items h = ground arith
all_responses-map s (job ∷ jobs) items h =
    let (x, xs, here, rest, e) = both_ok (to_job_response s job) (all_responses s jobs) items h in
    cc (to_job_response-eq s job x here, all_responses-map s jobs xs rest)

listing :
    (r : Result (List JobResponse)) (n : ℕ) (items : List JobResponse) (total : ℕ)
    → ◌>>=◌ {B = List JobResponse × ℕ} r (λ rs. ok (rs, n)) ≡ ok (items, total)
    → (r ≡ ok items) × (total ≡ n)
listing (ok rs) n items total h = ground arith
listing (err e) n items total h = cc

-- The rows that a listing selects.
abbrev pub selected : Principal → Option JobStatus → Db → List Job
selected principal status_filter db =
    filter (λ j. j.user_id == principal.user.id && has_status status_filter j) db.jobs

-- The same rows, each as often, newest first.
abbrev pub IsOrderOf : List Job → List Job → Type 0
IsOrderOf rows sorted =
    ((p : Job → Bool) → count p sorted ≡ count p rows) × IsNewestFirst (λ j. j.queued_at) sorted

-- A listing that succeeds shows the jobs of the caller with the wanted status, and no others, in an
-- order with the newest first, without as many as the offset says and then as many as the limit
-- allows; the total counts all jobs of the caller with that status.
pub list_jobs-own :
    (s : Settings) (status_filter : Option JobStatus) (limit offset : ℕ) (principal : Principal)
    (db : Db) (items : List JobResponse) (total : ℕ)
    → list_jobs s status_filter limit offset principal db ≡ ok (items, total)
    → ((sorted : List Job) × IsOrderOf (selected principal status_filter db) sorted
        × (items ≡ map response_of (take limit (drop offset sorted))))
      × (total ≡ length (selected principal status_filter db))
unfolding list_jobs page
list_jobs-own s status_filter limit offset principal db items total h =
    let rows = selected principal status_filter db in
    let sorted = order_desc (λ j. j.queued_at) rows in
    let (listed, counted) =
      listing (all_responses s (take limit (drop offset sorted))) (length rows) items total h in
    (
      (
        sorted,
        (
          λ p. count-order_desc (λ j. j.queued_at) p rows,
          order_desc-IsNewestFirst (λ j. j.queued_at) rows,
        ),
        all_responses-map s (take limit (drop offset sorted)) items listed,
      ),
      counted,
    )
