-- ===== src/Worker/Container.antt =====
-- worker/container.py: the run of a job's container, from the image to the outputs. What Docker
-- answers, and when the cancel event is set, is given by a Course. Times are in milliseconds.
pub mod Ending
pub mod Following
use perzforge.Prelude.{
  ℕ, zero, suc, ◌+◌, ◌-◌, ◌*◌, Bool, true, false, not, ◌&&◌, ◌||◌, Option, none, some, List, [],
  ◌∷◌, ◌++◌, String, Text, codes, concat, text_beq, any, filter, is_some, min, leb, ◌==◌,
  if◌then◌else◌,
}
use perzforge.Settings.{Settings}
use perzforge.Schema.{JobSpec}
use perzforge.Jobs.Spec.{is_valid_spec}
use perzforge.Registry.{OutputFile}
use perzforge.Logs.{LogCollector, new_collector, append, flush, tail}
use perzforge.Worker.{ContainerRunResult}

-- `env.setdefault(key, value)`
unfoldable pub setdefault : Text → Text → List (Text × Text) → List (Text × Text)
setdefault key value env =
    if any (λ entry. text_beq entry.0 key) env then env else env ++ (key, value) ∷ []

unfoldable pub job_environment : Settings → JobSpec → Text → Text → List (Text × Text)
unfolding setdefault
job_environment s spec job_id job_name = elim s.mlflow_tracking_uri [
  | [] ↦ spec.env
  | c ∷ uri ↦ setdefault (codes "MLFLOW_RUN_TAG_JOB_ID") job_id (
      setdefault (codes "MLFLOW_EXPERIMENT_NAME") job_name
        (setdefault (codes "MLFLOW_TRACKING_URI") (c ∷ uri) spec.env))
]

-- An exception of a call of Docker that `run_container` catches.
pub data Failure : Type 0 where
  image_not_found : Failure
  api_error : String → Failure

-- What `containers.run` gives: a container, or a failure after which one that was created and did
-- not start may be left.
pub data Launch : Type 0 where
  started : Launch
  not_started : Bool → Failure → Launch

-- Whether the container runs at a look, or the APIError of the look.
pub data Look : Type 0 where
  runs stands : Look
  blind : String → Look

pub record Course : Type 0 where
  -- the failure to find or to pull the image
  pub image_failure : Option Failure
  -- by the environment that the container is given
  pub launch : List (Text × Text) → Launch
  pub is_cancelled : ℕ → Bool
  pub look : ℕ → Look
  pub takes : ℕ → ℕ
  -- the StatusCode of `wait`, which may lack one, or its APIError
  pub exit : Option ℕ
  pub exit_error : Option String
  pub stop_error : Option String
  -- the chunks of the log that arrive before the log thread is stopped
  pub chunks : List (List ℕ)
  -- `chunk.decode("utf-8", errors="replace")`
  pub decode : List ℕ → Text
  -- the files that `_extract_outputs` finds; `none` for no archive or a broken one
  pub archive : Option (List OutputFile)
  pub removes_container : Bool
  pub removes_volume : Bool
  pub show : Text → String
  pub show_id : ℕ → Text
  pub spec_error : JobSpec → String

-- The containers and the volumes, by the job that they belong to.
pub record Node : Type 0 where
  pub containers : List ℕ
  pub volumes : List ℕ

-- What `_wait_for_container` returns or raises.
pub data Waited : Type 0 where
  exited : Option ℕ → Waited
  overdue : Waited
  called_off : Waited
  raised : Failure → Waited

-- `container.stop(timeout=10)`; what `wait` and `kill` raise after it is passed over.
abbrev pub stopping : Course → Waited → Waited
stopping c w = elim c.stop_error [ none ↦ w | some message ↦ raised (api_error message) ]

abbrev pub at_exit : Course → Waited
at_exit c = elim c.exit_error [ none ↦ exited c.exit | some message ↦ raised (api_error message) ]

-- A round that goes on sleeps for a second, or for what remains.
abbrev pub next_look : Course → ℕ → ℕ → ℕ
next_look c deadline now = now + c.takes now + min 1000 (deadline - now)

-- The loop, on fuel: `none` is a loop that has not ended.
unfoldable pub wait_loop : Course → ℕ → ℕ → ℕ → Option Waited
wait_loop c deadline zero now = none
wait_loop c deadline (suc fuel) now =
    let rest = wait_loop c deadline fuel (next_look c deadline now) in
    if c.is_cancelled now
    then some (stopping c called_off)
    else if leb deadline now
    then some (stopping c overdue)
    else elim (c.look now) [
      | runs ↦ rest
      | stands ↦ some (at_exit c)
      | blind message ↦ some (raised (api_error message))
    ]

-- A round for each second, and one to see that the deadline has passed.
unfoldable pub wait_for_container : Course → ℕ → ℕ → Option Waited
unfolding wait_loop
wait_for_container c timeout_seconds now =
    wait_loop c (now + 1000 * timeout_seconds) (suc timeout_seconds) now

-- `_extract_outputs`: nothing for no files.
unfoldable pub extract_outputs : Course → Option (List OutputFile)
extract_outputs c = elim c.archive [ none ↦ none | some [] ↦ none | some (f ∷ fs) ↦ some (f ∷ fs) ]

abbrev pub without_job : ℕ → List ℕ → List ℕ
without_job job_id jobs = filter (λ j. not (j == job_id)) jobs

-- `_cleanup_container`: each removal passes over an APIError.
unfoldable pub cleanup_container : Course → ℕ → Node → Node
cleanup_container c job_id n = record {
  containers = if c.removes_container then without_job job_id n.containers else n.containers;
  volumes = if c.removes_volume then without_job job_id n.volumes else n.volumes;
}

-- The result of a run that wrote a log, with its tail.
abbrev pub result_with :
    Option ℕ → Option String → Text → Bool → Bool → Option (List OutputFile) → ContainerRunResult
result_with exit_code error_message log timed_out cancelled outputs_dir = record {
  exit_code = exit_code;
  error_message = error_message;
  log_tail = log;
  timed_out = timed_out;
  cancelled = cancelled;
  outputs_dir = outputs_dir;
}

-- `except ImageNotFound` and `except APIError`.
abbrev pub failed_with : Course → JobSpec → Failure → Text → ContainerRunResult
failed_with c spec image_not_found log =
    result_with none (some (concat "image not found: " (c.show spec.image))) log false false none
failed_with c spec (api_error message) log = result_with none (some message) log false false none

-- `int(exit_result.get("StatusCode", 1))`
abbrev pub code_of : Option ℕ → ℕ
code_of none = 1
code_of (some code) = code

abbrev pub waited_result : Course → JobSpec → Waited → Text → ContainerRunResult
waited_result c spec (exited status) log =
    result_with (some (code_of status)) none log false false
      (if code_of status == 0 then extract_outputs c else none)
waited_result c spec overdue log = result_with none (some "timeout") log true false none
waited_result c spec called_off log = result_with none none log false true none
waited_result c spec (raised failure) log = failed_with c spec failure log

-- The log thread: every chunk, a list of bytes, is decoded by itself and appended.
unfoldable pub follow_logs :
    Settings → (List ℕ → Text) → List (List ℕ) → LogCollector → LogCollector
follow_logs s decode [] l = l
follow_logs s decode (chunk ∷ chunks) l = follow_logs s decode chunks (append s (decode chunk) l)

-- The log is flushed when the wait returns, and not when it raises.
abbrev pub flushed : Settings → Waited → LogCollector → LogCollector
flushed s (raised failure) l = l
flushed s waited l = flush s l

-- A container that started, until it is removed with its volume.
abbrev pub run_started : Settings → Course → ℕ → JobSpec → Waited → Node → ContainerRunResult × Node
run_started s c job_id spec waited n =
    let (log, l) = tail s (flushed s waited (follow_logs s c.decode c.chunks new_collector)) in
    (waited_result c spec waited log, cleanup_container c job_id n)

abbrev pub with_job : ℕ → Node → Node
with_job job_id n = record { containers = job_id ∷ n.containers; volumes = job_id ∷ n.volumes }

abbrev pub run_launched :
    Settings
    → Course
    → ℕ
    → JobSpec
    → Launch
    → Option Waited
    → Node
    → Option (ContainerRunResult × Node)
run_launched s c job_id spec (not_started left failure) waited n =
    some (failed_with c spec failure [], if left then with_job job_id n else n)
run_launched s c job_id spec started none n = none
run_launched s c job_id spec started (some waited) n =
    some (run_started s c job_id spec waited (with_job job_id n))

-- `job_name or job_id`
abbrev pub name_or_id : Text → Text → Text
name_or_id [] job_id = job_id
name_or_id (c ∷ name) job_id = c ∷ name

-- The environment of the container of a job.
abbrev pub environment_of : Settings → Course → ℕ → JobSpec → Text → List (Text × Text)
environment_of s c job_id spec job_name =
    job_environment s spec (c.show_id job_id) (name_or_id job_name (c.show_id job_id))

-- `run_container` at a time; `none` would be a wait that does not end.
unfoldable pub run_container :
    Settings → Course → ℕ → JobSpec → Text → ℕ → ℕ → Node → Option (ContainerRunResult × Node)
run_container s c job_id spec job_name timeout_seconds now n =
    if not (is_valid_spec s spec)
    then some (
      result_with none (some (concat "invalid job spec: " (c.spec_error spec))) [] false false none,
      n,
    )
    else elim c.image_failure [
      | some failure ↦ some (failed_with c spec failure [], n)
      | none ↦
          let environment = environment_of s c job_id spec job_name in
          run_launched s c job_id spec (c.launch environment)
            (wait_for_container c timeout_seconds now) n
    ]
