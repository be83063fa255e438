-- ===== src/Worker/Container/Ending.antt =====
-- How the run of a job's container ends, and what it leaves.
use perzforge.Prelude.{
  ℕ, zero, suc, ◌+◌, ◌*◌, ◌≤◌, ◌<◌, ◌≡◌, ◌≢◌, refl, ◌∙◌, if◌then◌else◌, Bool, true, false, not,
  ◌&&◌, Option, some, List, [], ◌∷◌, any, is_some, leb, arith, ◌==◌, Bool-cases, Option-cases, inl,
  inr, Text,
}
use perzforge.Settings.{Settings}
use perzforge.Schema.{JobSpec}
use perzforge.Jobs.Spec.{is_valid_spec}
use perzforge.Worker.{ContainerRunResult, outcome, is_success}
use perzforge.Worker.Container.{
  Course, Node, Launch, started, not_started, Failure, image_not_found, api_error, Look, runs,
  stands, blind, Waited, exited, overdue, called_off, raised, stopping, at_exit, next_look,
  wait_loop, wait_for_container, extract_outputs, without_job, cleanup_container, failed_with,
  waited_result, with_job, run_launched, run_container, code_of, environment_of,
}

-- The wait goes on after a look: no cancel, before the deadline, and the container runs.
abbrev is_running : Look → Bool
is_running runs = true
is_running _ = false

abbrev pub goes_on : Course → ℕ → ℕ → Bool
goes_on c deadline now =
    not (c.is_cancelled now) && not (leb deadline now) && is_running (c.look now)

-- What a look at which the wait does not go on comes to.
abbrev looked : Course → Look → Waited
looked c runs = raised image_not_found
looked c stands = at_exit c
looked c (blind message) = raised (api_error message)

abbrev pub verdict : Course → ℕ → ℕ → Waited
verdict c deadline now =
    if c.is_cancelled now
    then stopping c called_off
    else if leb deadline now
    then stopping c overdue
    else looked c (c.look now)

-- The time of the look after so many others.
abbrev pub look_time : Course → ℕ → ℕ → ℕ → ℕ
look_time c deadline zero now = now
look_time c deadline (suc n) now = look_time c deadline n (next_look c deadline now)

-- The wait ends at the first look at which it does not go on, with what that look comes to.
abbrev pub EndsWaiting : Course → ℕ → ℕ → Option Waited → Type 0
EndsWaiting c deadline now out =
    (n : ℕ) × ((k : ℕ) → k < n → goes_on c deadline (look_time c deadline k now) ≡ true)
    × (goes_on c deadline (look_time c deadline n now) ≡ false)
    × (out ≡ some (verdict c deadline (look_time c deadline n now)))

step_lem :
    (c : Course) (deadline fuel now : ℕ)
    → wait_loop c deadline (suc fuel) now ≡ (
        if goes_on c deadline now
        then wait_loop c deadline fuel (next_look c deadline now)
        else some (verdict c deadline now))
unfolding wait_loop
step_lem c deadline fuel now = elim (Bool-cases (c.is_cancelled now)) [
  | inl off ↦ rw off refl
  | inr on ↦ elim (Bool-cases (leb deadline now)) [
    | inl late ↦ rw (on, late) refl
    | inr soon ↦ rw (on, soon) (by_look (c.look now))
  ]
]
  where
    by_look :
        (l : Look)
        → elim l [
          | runs ↦ wait_loop c deadline fuel (next_look c deadline now)
          | stands ↦ some (at_exit c)
          | blind message ↦ some (raised (api_error message))
        ]
          ≡ (if is_running l
              then wait_loop c deadline fuel (next_look c deadline now)
              else some (looked c l))
    by_look runs = refl
    by_look stands = refl
    by_look (blind message) = refl

before :
    (c : Course) (deadline now n : ℕ)
    → goes_on c deadline now ≡ true
    → ((k : ℕ)
        → k < n
        → goes_on c deadline (look_time c deadline k (next_look c deadline now)) ≡ true)
    → (k : ℕ) → k < suc n
    → goes_on c deadline (look_time c deadline k now) ≡ true
before c deadline now n on rest zero below = on
before c deadline now n on rest (suc k) below = rest k (omega arith)

over_lem :
    (c : Course) (deadline fuel now : ℕ)
    → goes_on c deadline now ≡ false
    → EndsWaiting c deadline now (wait_loop c deadline (suc fuel) now)
over_lem c deadline fuel now over =
    (zero, (λ k below. absurd (omega arith)), over, step_lem c deadline fuel now ∙ rw over refl)

late_lem : (c : Course) (deadline now : ℕ) → deadline ≤ now → goes_on c deadline now ≡ false
late_lem c deadline now late = ground arith

loop-EndsWaiting :
    (c : Course) (deadline fuel now : ℕ)
    → deadline ≤ now + 1000 * fuel
    → EndsWaiting c deadline now (wait_loop c deadline (suc fuel) now)
loop-EndsWaiting c deadline zero now enough =
    over_lem c deadline zero now (late_lem c deadline now (omega arith))
loop-EndsWaiting c deadline (suc fuel) now enough = elim (Bool-cases (goes_on c deadline now)) [
  | inr over ↦ over_lem c deadline (suc fuel) now over
  | inl on ↦
      let later = next_look c deadline now in
      let (n, rest, over, e) = loop-EndsWaiting c deadline fuel later (omega arith) in
      (suc n, before c deadline now n on rest, over, step_lem c deadline (suc fuel) now ∙ rw on e)
]

pub wait-EndsWaiting :
    (c : Course) (timeout_seconds now : ℕ)
    → EndsWaiting c (now + 1000 * timeout_seconds) now (wait_for_container c timeout_seconds now)
unfolding wait_for_container
wait-EndsWaiting c timeout_seconds now =
    loop-EndsWaiting c (now + 1000 * timeout_seconds) timeout_seconds now (omega arith)

-- Nothing of the job is on the node.
abbrev pub IsClear : ℕ → Node → Type 0
IsClear job_id n =
    (any (λ j. j == job_id) n.containers ≡ false) × (any (λ j. j == job_id) n.volumes ≡ false)

-- Outputs only of a success, and not both stopped and overdue.
abbrev pub IsCoherent : ContainerRunResult → Type 0
IsCoherent r =
    ((is_some r.outputs_dir && not (is_success (outcome r).0)) ≡ false)
    × ((r.timed_out && r.cancelled) ≡ false)

-- A run that has ended.
abbrev pub IsOver : ℕ → Option (ContainerRunResult × Node) → Type 0
IsOver job_id out =
    (r : ContainerRunResult) × (n : Node) × (out ≡ some (r, n)) × IsCoherent r × IsClear job_id n

failed-IsCoherent :
    (c : Course) (spec : JobSpec) (failure : Failure) (log : Text)
    → IsCoherent (failed_with c spec failure log)
failed-IsCoherent c spec image_not_found log = (refl, refl)
failed-IsCoherent c spec (api_error message) log = (refl, refl)

and_false : (b : Bool) → (b && false) ≡ false
and_false b = ground arith

waited-IsCoherent :
    (c : Course) (spec : JobSpec) (w : Waited) (log : Text)
    → IsCoherent (waited_result c spec w log)
unfolding outcome
waited-IsCoherent c spec (exited status) log = elim (Bool-cases (code_of status == 0)) [
  | inl well ↦ rw well (and_false (is_some (extract_outputs c)), refl)
  | inr ill ↦ rw ill (refl, refl)
]
waited-IsCoherent c spec overdue log = (refl, refl)
waited-IsCoherent c spec called_off log = (refl, refl)
waited-IsCoherent c spec (raised failure) log = failed-IsCoherent c spec failure log

any-without_job :
    (job_id : ℕ) (jobs : List ℕ) → any (λ j. j == job_id) (without_job job_id jobs) ≡ false
any-without_job job_id [] = refl
any-without_job job_id (j ∷ jobs) = ground (arith, any-without_job job_id jobs)

module _ (s : Settings) (c : Course) (job_id : ℕ) (spec : JobSpec)
    (removes : (c.removes_container ≡ true) × (c.removes_volume ≡ true))
    (starts : (env : List (Text × Text)) (failure : Failure)
      → c.launch env ≢ not_started true failure) where
  cleanup-IsClear : (n : Node) → IsClear job_id (cleanup_container c job_id n)
  unfolding cleanup_container
  cleanup-IsClear n = (
    rw removes.0 (any-without_job job_id n.containers),
    rw removes.1 (any-without_job job_id n.volumes),
  )

  launched-IsOver :
      (env : List (Text × Text)) (l : Launch) (w : Waited) (n : Node)
      → c.launch env ≡ l
      → IsClear job_id n
      → IsOver job_id (run_launched s c job_id spec l (some w) n)
  launched-IsOver env started w n e clear =
      (_, _, refl, waited-IsCoherent c spec w _, cleanup-IsClear (with_job job_id n))
  launched-IsOver env (not_started true failure) w n e clear = absurd (starts env failure e)
  launched-IsOver env (not_started false failure) w n e clear =
      (_, _, refl, failed-IsCoherent c spec failure [], clear)

  -- The run of a job's container ends, whatever its course, for a job of which nothing is on the
  -- node, where Docker removes what it is asked to and leaves no container that did not start. The
  -- wait ends at the first look that finds the cancel event set, the deadline passed, the container
  -- not running, or an error of Docker, and comes to just that. The result has outputs only if the
  -- agent takes it for a success, and is not both stopped and overdue. Afterwards neither a
  -- container nor a volume of the job is there.
  pub run_container-IsOver :
      (job_name : Text) (timeout_seconds now : ℕ) (n : Node)
      → IsClear job_id n
      → EndsWaiting c (now + 1000 * timeout_seconds) now (wait_for_container c timeout_seconds now)
        × IsOver job_id (run_container s c job_id spec job_name timeout_seconds now n)
  unfolding run_container
  run_container-IsOver job_name timeout_seconds now n clear =
      let (k, rest, over, e) = wait-EndsWaiting c timeout_seconds now in
      (
        (k, rest, over, e),
        elim (Bool-cases (is_valid_spec s spec)) [
          | inr invalid ↦ rw invalid (_, _, refl, (refl, refl), clear)
          | inl valid ↦ rw valid (elim (Option-cases c.image_failure) [
            | inr (failure, gone) ↦
                simp gone (_, _, refl, failed-IsCoherent c spec failure [], clear)
            | inl there ↦
                simp (there, e)
                  (launched-IsOver (environment_of s c job_id spec job_name) _ _ n refl clear)
          ])
        ],
      )
