-- ===== src/Worker/Lifecycle/Busy.antt =====
-- What a request to cancel does to the rows, and the job in the worker's hands.
use mathlib.Core.Option
use perzforge.Prelude.{
  ℕ, ◌≡◌, ◌≢◌, refl, sym, ap, ◌∙◌, true, false, some, String, find?-update_ne, find?-update_self,
  find?-update_self, find?-holds, arith, Bool-cases, Option-cases, inl, inr, ◌==◌,
}
use perzforge.Settings.{Settings}
use perzforge.Schema.{Job, JobStatus, queued, running, cancelling, succeeded, failed, cancelled, Db}
use perzforge.Jobs.{
  Principal, Platform, find_job, update_job, is_terminal, cancel_job, to_cancelled, to_cancelling,
}
use perzforge.Worker.{Outside, to_running}
use perzforge.Worker.{mark_job_running, is_queued}
use perzforge.Worker.Agent.{take_job}
use perzforge.Jobs.Spec.{is_valid_spec}
use perzforge.Worker.Lifecycle.{is_busy, IsOpen}
use perzforge.Jobs.{cancel_found, get_owned_job, cancel_owned, update_job}
use perzforge.Jobs.Ownership.{get_owned_job-exactly}
use perzforge.Http.{Result, ok, err}
use perzforge.Worker.Lifecycle.Ended.{update_open}

-- The rows that a request to cancel leaves: the same, or those with one job cancelled that was
-- waiting, or with one marked that was running.
pub data CancelEffect (now : ℕ) (db : Db) : Db → Type 0 where
  nothing : CancelEffect now db db
  dropped :
      (row : Job)
      → find_job row.id db ≡ some row
      → row.status ≡ queued
      → CancelEffect now db (update_job row.id (to_cancelled now) db)
  marked :
      (row : Job)
      → find_job row.id db ≡ some row
      → row.status ≡ running
      → CancelEffect now db (update_job row.id to_cancelling db)

cancel_owned-effect :
    (s : Settings) (now : ℕ) (row : Job) (status : JobStatus) (p : Platform)
    → row.status ≡ status
    → find_job row.id p.world.db ≡ some row
    → CancelEffect now p.world.db (cancel_owned s now row status p).1.world.db
unfolding cancel_owned
cancel_owned-effect s now row queued p e there = dropped row there e
cancel_owned-effect s now row running p e there = marked row there e
cancel_owned-effect s now row cancelling p e there = nothing
cancel_owned-effect s now row succeeded p e there = nothing
cancel_owned-effect s now row failed p e there = nothing
cancel_owned-effect s now row cancelled p e there = nothing

own_id : (id : ℕ) (db : Db) (row : Job) → find_job id db ≡ some row → find_job row.id db ≡ some row
own_id id db row there =
    let e : row.id ≡ id = ground (arith, find?-holds (λ j. j.id == id) db.jobs row there) in
    ap (λ (n : ℕ). find_job n db) e ∙ there

pub cancel_job-effect :
    (s : Settings) (now job_id : ℕ) (principal : Principal) (p : Platform)
    → CancelEffect now p.world.db (cancel_job s now job_id principal p).1.world.db
unfolding cancel_job
cancel_job-effect s now job_id principal p = go (get_owned_job p.world.db job_id principal) refl
  where
    go :
        (r : Result Job)
        → get_owned_job p.world.db job_id principal ≡ r
        → CancelEffect now p.world.db (cancel_found s now r p).1.world.db
    go (err e) h = nothing
    go (ok row) h =
        let found = ((get_owned_job-exactly p.world.db job_id principal).0 row).0 h in
        cancel_owned-effect s now row row.status p refl (own_id job_id p.world.db row found.0)

-- An ended job stays as it is.
pub effect-ended :
    (now k : ℕ) (job : Job) (db db' : Db)
    → is_terminal job.status ≡ true
    → CancelEffect now db db'
    → find_job k db ≡ some job
    → find_job k db' ≡ some job
effect-ended now k job db db' ended nothing there = there
effect-ended now k job db db' ended (dropped row here e) there =
    update_open k job ended (to_cancelled now) (λ j. refl) row.id db (rw (here, e) refl) there
effect-ended now k job db db' ended (marked row here e) there =
    update_open k job ended to_cancelling (λ j. refl) row.id db (rw (here, e) refl) there

update_busy :
    (f : Job → Job) (keeps : (j : Job) → (f j).id ≡ j.id) (id k : ℕ) (db : Db) (row : Job)
    → find_job id db ≡ some row
    → (is_busy (some row) ≡ true → is_busy (some (f row)) ≡ true)
    → is_busy (find_job k db) ≡ true
    → is_busy (find_job k (update_job id f db)) ≡ true
update_busy f keeps id k db row there stays busy = elim (Bool-cases (id == k)) [
  | inl same ↦
      let e : id ≡ k = ground arith in
      let was : is_busy (some row) ≡ true =
        ap is_busy (sym there) ∙ ap (λ (n : ℕ). is_busy (find_job n db)) e ∙ busy in
      ap (λ (n : ℕ). is_busy (find_job n (update_job id f db))) (sym e)
      ∙ ap is_busy (find?-update_self (λ j. j.id) f keeps id db.jobs ∙ ap (Option.map f) there)
      ∙ stays was
  | inr other ↦
      let apart : id ≢ k = ground arith in
      rw (find?-update_ne (λ j. j.id) f keeps id k db.jobs apart) busy
]

pub effect-busy :
    (now k : ℕ) (db db' : Db)
    → CancelEffect now db db'
    → is_busy (find_job k db) ≡ true
    → is_busy (find_job k db') ≡ true
effect-busy now k db db' nothing busy = busy
effect-busy now k db db' (dropped row here e) busy =
    update_busy (to_cancelled now) (λ j. refl) row.id k db row here
      (λ h. let q : is_busy (some row) ≡ false = rw e refl in sym q ∙ h) busy
effect-busy now k db db' (marked row here e) busy =
    update_busy to_cancelling (λ j. refl) row.id k db row here (λ h. refl) busy

-- A job that the agent takes is in hand.
pub take-busy :
    (s : Settings) (o : Outside) (now id : ℕ) (host : String) (db : Db)
    → IsOpen (take_job s o now id host db).1 (take_job s o now id host db).0
unfolding take_job mark_job_running
take-busy s o now id host db = elim (Option-cases (find_job id db)) [
  | inl missing ↦ rw (take_job, missing) tt
  | inr (row, found) ↦ elim (Bool-cases (is_queued row)) [
    | inl waits ↦ elim (Bool-cases (is_valid_spec s row.spec)) [
      | inl valid ↦
          let same : row.id ≡ id =
            ground (arith, find?-holds (λ j. j.id == id) db.jobs row found) in
          rw (take_job, found, waits, valid, mark_job_running, found, waits)
            (ap (λ (n : ℕ). is_busy (find_job n (update_job id (to_running now host) db))) same
              ∙ ap is_busy (
                  find?-update_self (λ j. j.id) (to_running now host) (λ j. refl) id db.jobs
                  ∙ ap (Option.map (to_running now host)) found))
      | inr invalid ↦ rw (take_job, found, waits, invalid) tt
    ]
    | inr busy ↦ rw (take_job, found, busy) tt
  ]
]
