-- ===== src/Worker/Lifecycle/Ended.antt =====
-- The operations of the API and of the worker agent, and the jobs that have ended.
use perzforge.Prelude.{
  ℕ, ◌≡◌, ◌≢◌, refl, ap, ◌∙◌, true, false, some, String, find?-update_ne, find?-map, arith,
  Bool-cases, Option-cases, inl, inr, ◌==◌,
}
use perzforge.Settings.{Settings}
use perzforge.Schema.{Job, Db}
use perzforge.Storage.{Printing}
use perzforge.Jobs.{find_job, update_job, is_terminal}
use perzforge.Registry.{Source}
use perzforge.Worker.{
  ContainerRunResult, Machine, Outside, Final, Eof, eof_cancelled, stopped_final, finalized,
  finalize_raises, fits_columns, finalize_job, to_final, to_running, apply_container_result,
  reap_zombie_jobs,
}
use perzforge.Worker.{mark_job_running, is_queued}
use perzforge.Worker.Agent.{take_job, invalid_spec}
use perzforge.Jobs.Spec.{is_valid_spec}
use perzforge.Worker.Lifecycle.{has_ended}
use perzforge.Worker.Outcomes.{promote-jobs}
use perzforge.Registry.{Cloud}
use perzforge.Worker.{promote, outcome}
use perzforge.Worker.Reaping.{reaped, reap_zombie_jobs-exactly}
use perzforge.Jobs.{update_job}

reaped-id : (now : ℕ) (host : String) (x : Job) → (reaped now host x).id ≡ x.id
reaped-id now host x = ground arith

is_terminal-waits : (row : Job) → is_queued row ≡ true → is_terminal row.status ≡ false
is_terminal-waits row h = ground arith

module _ (k : ℕ) (job : Job) (ended : is_terminal job.status ≡ true) where
  -- An update of a job that has not ended leaves the ended ones.
  pub update_open :
      (f : Job → Job) (keeps : (j : Job) → (f j).id ≡ j.id) (id : ℕ) (db : Db)
      → has_ended (find_job id db) ≡ false
      → find_job k db ≡ some job
      → find_job k (update_job id f db) ≡ some job
  update_open f keeps id db live there = elim (Bool-cases (id == k)) [
    | inl same ↦
        let e : id ≡ k = ground arith in
        let found : has_ended (find_job id db) ≡ true = rw (e, there) ended in cc
    | inr other ↦
        let apart : id ≢ k = ground arith in
        find?-update_ne (λ j. j.id) f keeps id k db.jobs apart ∙ there
  ]

  finalize-keeps :
      (now id : ℕ) (f : Final) (db : Db)
      → has_ended (find_job id db) ≡ false
      → find_job k db ≡ some job
      → find_job k (finalize_job now id f db) ≡ some job
  unfolding finalize_job
  finalize-keeps now id f db live there = elim (Option-cases (find_job id db)) [
    | inl missing ↦ rw (finalize_job, missing) there
    | inr (row, found) ↦ elim (Bool-cases (fits_columns f)) [
      | inl fit ↦
          rw (finalize_job, found, fit) (update_open (to_final now f) (λ j. refl) id db live there)
      | inr long ↦ rw (finalize_job, found, long) there
    ]
  ]

  finalized-keeps :
      (now id : ℕ) (f : Final) (event : Eof) (m : Machine)
      → has_ended (find_job id m.cloud.world.db) ≡ false
      → find_job k m.cloud.world.db ≡ some job
      → find_job k (finalized now id f event m).cloud.world.db ≡ some job
  finalized-keeps now id f event m live there =
      elim (Bool-cases (finalize_raises id f m.cloud.world.db)) [
        | inl raises ↦ rw raises there
        | inr written ↦ rw written (finalize-keeps now id f m.cloud.world.db live there)
      ]

  mark-keeps :
      (now id : ℕ) (host : String) (db : Db)
      → has_ended (find_job id db) ≡ false
      → find_job k db ≡ some job
      → find_job k (mark_job_running now id host db).1 ≡ some job
  unfolding mark_job_running
  mark-keeps now id host db live there = elim (Option-cases (find_job id db)) [
    | inl missing ↦ rw (mark_job_running, missing) there
    | inr (row, found) ↦ elim (Bool-cases (is_queued row)) [
      | inl waits ↦
          rw (mark_job_running, found, waits)
            (update_open (to_running now host) (λ j. refl) id db live there)
      | inr busy ↦ rw (mark_job_running, found, busy) there
    ]
  ]

  pub take-keeps :
      (s : Settings) (o : Outside) (now id : ℕ) (host : String) (db : Db)
      → find_job k db ≡ some job
      → find_job k (take_job s o now id host db).1 ≡ some job
  unfolding take_job
  take-keeps s o now id host db there = elim (Option-cases (find_job id db)) [
    | inl missing ↦ rw (take_job, missing) there
    | inr (row, found) ↦ elim (Bool-cases (is_queued row)) [
      | inl waits ↦
          let live : has_ended (find_job id db) ≡ false = rw found (is_terminal-waits row waits) in
          elim (Bool-cases (is_valid_spec s row.spec)) [
            | inl valid ↦ rw (take_job, found, waits, valid) (mark-keeps now id host db live there)
            | inr invalid ↦
                rw (take_job, found, waits, invalid)
                  (finalize-keeps now id (invalid_spec o row) db live there)
          ]
      | inr busy ↦ rw (take_job, found, busy) there
    ]
  ]

  pub apply-keeps :
      (s : Settings) (str : Printing) (o : Outside) (now model_id : ℕ) (src : Source)
      (r : ContainerRunResult) (m : Machine)
      → has_ended (find_job src.job_id m.cloud.world.db) ≡ false
      → find_job k m.cloud.world.db ≡ some job
      → find_job k (apply_container_result s str o now model_id src r m).cloud.world.db ≡ some job
  unfolding apply_container_result outcome
  apply-keeps s str o now model_id src r m live there =
      let c : Cloud = (promote s str o now model_id src (outcome r).0 r.outputs_dir m.cloud).1 in
      let same = promote-jobs s str o now model_id src (outcome r).0 r.outputs_dir m.cloud in
      elim (Bool-cases r.cancelled) [
        | inl stopped ↦
            rw stopped (finalized-keeps now src.job_id (stopped_final r) eof_cancelled m live there)
        | inr ended ↦ rw ended (
            finalized-keeps now src.job_id _ _ (record m { cloud = c }) (rw same live)
              (rw same there))
      ]

  reaped-ended : (now : ℕ) (host : String) → reaped now host job ≡ job
  reaped-ended now host = ground arith

  pub reap-keeps :
      (now : ℕ) (host : String) (db : Db)
      → find_job k db ≡ some job
      → find_job k (reap_zombie_jobs now host db).1 ≡ some job
  reap-keeps now host db there = rw (reap_zombie_jobs-exactly now host db).0 (
      find?-map (λ j. j.id) (reaped now host) (reaped-id now host) k db.jobs
      ∙ rw there (ap (λ (j : Job). some j) (reaped-ended now host)))
