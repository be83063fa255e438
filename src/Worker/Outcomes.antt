-- ===== src/Worker/Outcomes.antt =====
-- How `_apply_container_result` of worker/agent.py writes down the end of a container.
use mathlib.Core.Option
use perzforge.Prelude.{
  ℕ, ◌≡◌, ◌==◌, ◌&&◌, ◌||◌, ◌⊎◌, not, refl, ap, ◌∙◌, Bool, true, false, Option, none, some, List,
  ◌∷◌, String, leb, length, codes, find?-update_self, arith, Bool-cases, inl, inr, if◌then◌else◌,
}
use perzforge.Settings.{Settings}
use perzforge.Schema.{Job, JobStatus, succeeded, failed, cancelled, Db}
use perzforge.Storage.{Printing}
use perzforge.Jobs.{find_job}
use perzforge.Registry.{Cloud, OutputFile, Source}
use perzforge.Registry.Promotion.{promote_outputs-jobs}
use perzforge.Worker.{
  ContainerRunResult, Machine, Outside, Final, Eof, eof, eof_cancelled, finalize_job,
  finalize_raises, finalized, fits_columns, stopped_final, ended_final, to_final, promote, outcome,
  is_success, apply_container_result,
}

-- The promotion, done or not, does not touch the jobs.
pub promote-jobs :
    (s : Settings) (str : Printing) (o : Outside) (now model_id : ℕ) (src : Source)
    (status : JobStatus) (outputs : Option (List OutputFile)) (c : Cloud)
    → (promote s str o now model_id src status outputs c).1.world.db.jobs ≡ c.world.db.jobs
unfolding promote
promote-jobs s str o now model_id src status none c = refl
promote-jobs s str o now model_id src status (some files) c =
    elim (Bool-cases (is_success status)) [
      | inl good ↦ rw good (promote_outputs-jobs s str now model_id src (some files) c)
      | inr bad ↦ rw bad refl
    ]

-- A container that came to a good end: in time, without an error, with exit code 0.
abbrev pub is_good : ContainerRunResult → Bool
is_good r =
    not r.timed_out
    && elim r.error_message [ none ↦ true | some e ↦ false ]
    && elim r.exit_code [ none ↦ false | some code ↦ code == 0 ]

-- The status that a job ends with, and the event that ends its stream.
abbrev pub final_status : ContainerRunResult → JobStatus
final_status r = if r.cancelled then cancelled else if is_good r then succeeded else failed

abbrev pub final_event : ContainerRunResult → Eof
final_event r = if r.cancelled then eof_cancelled else eof r.exit_code

outcome_lem :
    (r : ContainerRunResult)
    → ((outcome r).0 ≡ (if is_good r then succeeded else failed)) × ((outcome r).2 ≡ r.exit_code)
unfolding outcome
outcome_lem r = ground arith

finalize-row :
    (now id : ℕ) (f : Final) (db : Db) (job : Job)
    → find_job id db ≡ some job
    → fits_columns f ≡ true
    → find_job id (finalize_job now id f db) ≡ some (to_final now f job)
unfolding finalize_job
finalize-row now id f db job there fit =
    rw (finalize_job, there, fit)
      (find?-update_self (λ j. j.id) (to_final now f) (λ j. refl) id db.jobs
        ∙ ap (Option.map (to_final now f)) there)

-- The end of a job is written: its row, and the event.
abbrev pub IsWritten : ℕ → ℕ → JobStatus → Eof → Machine → Machine → Type 0
IsWritten now id status event m m' =
    ((row : Job) × (find_job id m'.cloud.world.db ≡ some row)
      × (row.status ≡ status)
      × (row.finished_at ≡ some now))
    × (m'.published ≡ (id, event) ∷ m.published)

-- The agent has ended, the row is as it was, and the stream has no event.
abbrev pub IsCrashed : ℕ → Job → Machine → Machine → Type 0
IsCrashed id job m m' =
    (m'.crashed ≡ true) × (find_job id m'.cloud.world.db ≡ some job) × (m'.published ≡ m.published)

finalized-cases :
    (now id : ℕ) (f : Final) (event : Eof) (m : Machine) (job : Job) (status : JobStatus)
    (wanted : Eof)
    → find_job id m.cloud.world.db ≡ some job
    → f.status ≡ status
    → event ≡ wanted
    → ((fits_columns f ≡ true) × IsWritten now id status wanted m (finalized now id f event m))
      ⊎ ((fits_columns f ≡ false) × IsCrashed id job m (finalized now id f event m))
unfolding finalize_raises
finalized-cases now id f event m job status wanted there right same =
    elim (Bool-cases (fits_columns f)) [
      | inl fit ↦
          let row = finalize-row now id f m.cloud.world.db job there fit in
          inl (
            fit,
            rw (finalize_raises, there, fit)
                ((_, row, right, refl), ap (λ (e : Eof). (id, e) ∷ m.published) same),
          )
      | inr long ↦ inr (long, rw (finalize_raises, there, long) (refl, there, refl))
    ]

cancelled-IsWritten :
    (now id : ℕ) (r : ContainerRunResult) (m : Machine) (job : Job)
    → find_job id m.cloud.world.db ≡ some job
    → IsWritten now id cancelled eof_cancelled m
        (finalized now id (stopped_final r) eof_cancelled m)
unfolding fits_columns
cancelled-IsWritten now id r m job there =
    elim (finalized-cases now id (stopped_final r) eof_cancelled m job _ _ there refl refl) [
      | inl (fit, written) ↦ written
      | inr (long, crashed) ↦ absurd (let h : true ≡ false = long in cc)
    ]

-- Both ends, for a container that was cancelled or not.
either_end :
    (now id : ℕ) (m m₁ m₂ : Machine) (job : Job) (stopped : Bool) {fit : Bool} {status : JobStatus}
    {event : Eof}
    → IsWritten now id cancelled eof_cancelled m m₁
    → ((fit ≡ true) × IsWritten now id status event m m₂) ⊎ ((fit ≡ false) × IsCrashed id job m m₂)
    → (((stopped || fit) ≡ true)
        × IsWritten now id
            (if stopped then cancelled else status)
            (if stopped then eof_cancelled else event)
            m
            (if stopped then m₁ else m₂))
      ⊎ (((stopped || fit) ≡ false) × IsCrashed id job m (if stopped then m₁ else m₂))
either_end now id m m₁ m₂ job true written ends = inl (refl, written)
either_end now id m m₁ m₂ job false written ends = ends

abbrev pub is_short : ℕ → Option String → Bool
is_short width none = true
is_short width (some x) = leb (length (codes x)) width

-- The texts that the end of a job writes fit in the columns of its row, which are 1024, 64 and 1024
-- characters wide: for one that was cancelled there are none.
abbrev pub has_short_texts :
    Settings → Printing → Outside → ℕ → ℕ → Source → ContainerRunResult → Machine → Bool
has_short_texts s str o now model_id src r m =
    let artifact_error = (promote s str o now model_id src (outcome r).0 r.outputs_dir m.cloud).0 in
    r.cancelled
    || is_short 1024 (outcome r).1
      && is_short 64 (
          if is_success (outcome r).0 then o.lookup_mlflow_run_id src.job_name src.job_id else none)
      && is_short 1024 artifact_error

-- However its container ends, a job that is there gets the status that the end calls for, with the
-- time of the end, and its stream ends with the event that belongs to it, whatever becomes of the
-- outputs, if the texts fit in the columns of its row. If one does not, the agent ends with an
-- exception, the row stays as it was, and the stream does not end.
pub apply_container_result-row :
    (s : Settings) (str : Printing) (o : Outside) (now model_id : ℕ) (src : Source)
    (r : ContainerRunResult) (m : Machine) (job : Job)
    → find_job src.job_id m.cloud.world.db ≡ some job
    → let m' = apply_container_result s str o now model_id src r m in
      ((has_short_texts s str o now model_id src r m ≡ true)
        × IsWritten now src.job_id (final_status r) (final_event r) m m')
      ⊎ ((has_short_texts s str o now model_id src r m ≡ false) × IsCrashed src.job_id job m m')
unfolding apply_container_result fits_columns
apply_container_result-row s str o now model_id src r m job there =
    let (status, code) = outcome_lem r in
    let same = promote-jobs s str o now model_id src (outcome r).0 r.outputs_dir m.cloud in
    let artifact_error = (promote s str o now model_id src (outcome r).0 r.outputs_dir m.cloud).0 in
    let c : Cloud = (promote s str o now model_id src (outcome r).0 r.outputs_dir m.cloud).1 in
    either_end now src.job_id m _ _ job r.cancelled
      (cancelled-IsWritten now src.job_id r m job there)
      (finalized-cases now src.job_id (ended_final o src r artifact_error) (eof (outcome r).2)
        (record m { cloud = c }) job _ _ (rw same there) status (ap (λ (e : Option ℕ). eof e) code))
