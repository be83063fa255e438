-- ===== src/Serving/Docker.antt =====
-- The operations of api/serving.py on the host: the directory of artifacts and the container of an
-- endpoint. What Docker, the disk and the runner answer is given by an Environment.
use perzforge.Prelude.{
  ℕ, Bool, not, ◌&&◌, Option, none, some, List, [], ◌∷◌, ◌++◌, String, concat, Text, codes,
  text_beq, find?, filter, any, ◌==◌, if◌then◌else◌,
}
use perzforge.Http.{Result, ok, err, Error, serving_error, exception, then_run, ◌>>=◌}
use perzforge.Schema.{Model}
use perzforge.Storage.{File, list_files}
use perzforge.Registry.{Cloud}
use perzforge.Serving.Health.{Runner}

-- A container of Docker; a runner is named after its endpoint.
pub record Container : Type 0 where
  pub id : ℕ
  pub endpoint_id : ℕ

-- The directory of an endpoint below `serving_artifact_root`, by the names of its files.
pub record ArtifactDir : Type 0 where
  pub endpoint_id : ℕ
  pub files : List Text

-- What the routes of endpoints work on.
pub record Host : Type 0 where
  pub cloud : Cloud
  pub containers : List Container
  pub artifact_dirs : List ArtifactDir

-- How `containers.run` ends: with a container, or with an APIError after which a container that was
-- created and did not start may be left.
pub data Run : Type 0 where
  started : ℕ → Run
  not_started : Option ℕ → String → Run

pub record Environment : Type 0 where
  -- the exception that reaching Docker or its network ends with
  pub unreachable : Option String
  pub has_image : Bool
  -- the APIError of the pull
  pub pull_error : Option String
  pub run : Run
  -- the exception that a later call of Docker ends with, when it is not there any more
  pub lost : Option String
  -- a look for a container, and its removal, that do not end with an APIError
  pub sees : ℕ → Bool
  pub removes : ℕ → Bool
  -- the bindings of the published port, by their HostPort
  pub bindings : ℕ → List (Option Text)
  -- whether the path of a file resolves to one below the directory
  pub is_inside : ℕ → Text → Bool
  -- the exception that fetching an object ends with
  pub fetch_error : Text → Option String
  pub runner : Text → Runner
  pub number : ℕ → String
  pub now : ℕ

-- SERVE_PY
abbrev pub serve_py : Text
serve_py = codes "serve.py"

abbrev pub has_dir : ℕ → Host → Bool
has_dir endpoint_id h = any (λ d. d.endpoint_id == endpoint_id) h.artifact_dirs

abbrev pub set_containers : List Container → Host → Host
set_containers cs h = record h { containers = cs }

abbrev pub set_dirs : List ArtifactDir → Host → Host
set_dirs ds h = record h { artifact_dirs = ds }

unfoldable pub cleanup_artifact_dir : ℕ → Host → Host
cleanup_artifact_dir endpoint_id h =
    set_dirs (filter (λ d. not (d.endpoint_id == endpoint_id)) h.artifact_dirs) h

-- The loop of `download_prefix` of api/storage.py: the files written, and the error it stops with.
unfoldable pub download_files : Environment → ℕ → List File → List Text × Option Error
download_files env endpoint_id [] = ([], none)
download_files env endpoint_id (f ∷ fs) =
    let (files, error) = download_files env endpoint_id fs in
    if not (env.is_inside endpoint_id f.key)
    then ([], some (exception "refusing path outside destination"))
    else elim (env.fetch_error f.full_key) [
      | some message ↦ ([], some (exception message))
      | none ↦ (f.key ∷ files, error)
    ]

abbrev pub checked_download : Option Error → List Text → Result (Unit {0})
checked_download (some e) files = err e
checked_download none [] = err (serving_error "model artifact prefix is empty")
checked_download none (f ∷ fs) =
    if any (text_beq serve_py) (f ∷ fs)
    then ok tt
    else err (serving_error "serving contract violation: serve.py missing from artifact prefix")

unfoldable pub download_model_artifacts : Environment → Model → ℕ → Host → Result (Unit {0}) × Host
unfolding cleanup_artifact_dir download_files
download_model_artifacts env model endpoint_id h =
    let cleared = cleanup_artifact_dir endpoint_id h in
    let (files, error) =
      download_files env endpoint_id (list_files model.minio_prefix h.cloud.objects) in
    (
      checked_download error files,
      set_dirs (record { endpoint_id = endpoint_id; files = files } ∷ cleared.artifact_dirs)
          cleared,
    )

abbrev pub remove_container : ℕ → Host → Host
remove_container container_id h =
    set_containers (filter (λ c. not (c.id == container_id)) h.containers) h

-- The container that a former start left under the name of the endpoint.
abbrev pub clear_name : Environment → Option Container → Host → Result (Unit {0}) × Host
clear_name env none h = (ok tt, h)
clear_name env (some c) h =
    if env.sees c.id && env.removes c.id
    then (ok tt, remove_container c.id h)
    else (err (exception "the old container is not removed"), h)

abbrev pub have_image : Environment → Result (Unit {0})
have_image env = if env.has_image then ok tt else elim env.pull_error [
  | none ↦ ok tt
  | some message ↦ err (serving_error (concat "serve runner image unavailable: " message))
]

abbrev pub run_runner : Run → ℕ → Host → Result ℕ × Host
run_runner (started id) endpoint_id h =
    (ok id, set_containers (record { id = id; endpoint_id = endpoint_id } ∷ h.containers) h)
run_runner (not_started none message) endpoint_id h =
    (err (serving_error (concat "failed to start runner: " message)), h)
run_runner (not_started (some id) message) endpoint_id h = (
  err (serving_error (concat "failed to start runner: " message)),
  set_containers (record { id = id; endpoint_id = endpoint_id } ∷ h.containers) h,
)

abbrev pub reached : Environment → Result (Unit {0})
reached env = elim env.unreachable [ none ↦ ok tt | some message ↦ err (exception message) ]

unfoldable pub start_runner_container : Environment → ℕ → Host → Result ℕ × Host
start_runner_container env endpoint_id h =
    then_run (reached env, h)
      (λ x h₁.
        then_run (clear_name env (find? (λ c. c.endpoint_id == endpoint_id) h₁.containers) h₁)
          (λ x h₂. then_run (have_image env, h₂) (λ x h₃. run_runner env.run endpoint_id h₃)))

abbrev pub is_there : ℕ → Host → Bool
is_there container_id h = any (λ c. c.id == container_id) h.containers

abbrev pub still_there : Environment → Result (Unit {0})
still_there env = elim env.lost [ none ↦ ok tt | some message ↦ err (exception message) ]

abbrev pub stopped_runner : Environment → ℕ → Host → Host
stopped_runner env container_id h =
    if env.sees container_id && env.removes container_id then remove_container container_id h else h

-- NotFound and APIError are both passed over.
unfoldable pub stop_runner_container : Environment → ℕ → Host → Result (Unit {0}) × Host
stop_runner_container env container_id h =
    then_run (still_there env, h) (λ x h₁. (ok tt, stopped_runner env container_id h₁))

-- An APIError counts as a container that is not there.
unfoldable pub container_exists : Environment → ℕ → Host → Result Bool
container_exists env container_id h =
    still_there env >>= λ x. ok (env.sees container_id && is_there container_id h)

abbrev pub first_binding : List (Option Text) → Result Text
first_binding [] = err (serving_error "endpoint container has no published port")
first_binding (none ∷ bs) = err (serving_error "endpoint container has no host port binding")
first_binding (some [] ∷ bs) = err (serving_error "endpoint container has no host port binding")
first_binding (some (c ∷ port) ∷ bs) = ok (codes "http://127.0.0.1:" ++ c ∷ port)

unfoldable pub runner_base_url : Environment → ℕ → Host → Result Text
runner_base_url env container_id h =
    if not (env.sees container_id)
    then err (exception "Docker does not answer")
    else if is_there container_id h
    then first_binding (env.bindings container_id)
    else err (serving_error "endpoint container not found")
