-- ===== src/Serving/Activation.antt =====
-- `activate_endpoint`, `_mark_failed` and `stop_endpoint_runtime` of api/serving.py. The row of the
-- endpoint is that of the session: each commit is an update of the table by its key.
pub mod Frames
pub mod Winding
pub mod Settling
pub mod Rows
use Prim.Native.String
use perzforge.Prelude.{
  ℕ, zero, suc, Bool, true, false, Option, none, some, List, String, find?, update_where, ◌==◌,
  if◌then◌else◌, concat,
}
use perzforge.Settings.{Settings}
use perzforge.Schema.{Endpoint, EndpointStatus, starting, live, stopped, failed, Model, Db}
use perzforge.Http.{Result, ok, err, Error, serving_error, exception, then_run, ◌>>=◌}
use perzforge.Storage.{prefix_has_file}
use perzforge.Serving.Health.{wait_for_health}
use perzforge.Serving.Docker.{
  Host, Environment, serve_py, download_model_artifacts, start_runner_container,
  stop_runner_container, runner_base_url, cleanup_artifact_dir,
}

abbrev pub find_endpoint : ℕ → Db → Option Endpoint
find_endpoint endpoint_id db = find? (λ e. e.id == endpoint_id) db.endpoints

abbrev pub rows_of : Host → List Endpoint
rows_of h = h.cloud.world.db.endpoints

abbrev pub set_endpoints : List Endpoint → Host → Host
set_endpoints es h = record h {
  cloud = record h.cloud {
    world = record h.cloud.world { db = record h.cloud.world.db { endpoints = es } };
  };
}

-- `db.commit()` after the row was changed.
unfoldable pub save : ℕ → (Endpoint → Endpoint) → Host → Host
save endpoint_id f h = set_endpoints (update_where (λ e. e.id == endpoint_id) f (rows_of h)) h

-- `message[:n]`
unfoldable pub cut : ℕ → String → String
cut zero s = ""
cut (suc n) String.[] = ""
cut (suc n) (String.◌∷◌ c s) = String.◌∷◌ c (cut n s)

-- `exc.message` or `str(exc)`; no other exception comes up in an activation.
abbrev pub message_of : Error → String
message_of (serving_error message) = message
message_of (exception message) = message
message_of _ = ""

abbrev pub to_failed : String → Endpoint → Endpoint
to_failed message e = record e {
  status = failed;
  container_id = none;
  error_message = some (cut 1024 message);
}

abbrev pub to_live : Endpoint → Endpoint
to_live e = record e { status = live; error_message = none }

abbrev pub to_stopped : ℕ → Endpoint → Endpoint
to_stopped now e = record e {
  status = stopped;
  container_id = none;
  error_message = none;
  stopped_at = some now;
}

abbrev pub with_container : ℕ → Endpoint → Endpoint
with_container container_id e = record e { container_id = some container_id }

-- `if endpoint.container_id: await to_thread(stop_runner_container, ...)`
abbrev pub stop_container_of : Environment → Option ℕ → Host → Result (Unit {0}) × Host
stop_container_of env none h = (ok tt, h)
stop_container_of env (some container_id) h = stop_runner_container env container_id h

-- Stop the container, clear the directory and write the end into the row.
unfoldable pub wind_up :
    Environment → (Endpoint → Endpoint) → Endpoint → Host → Result Endpoint × Host
wind_up env f endpoint h =
    then_run (stop_container_of env endpoint.container_id h)
      (λ x h₁. (ok (f endpoint), save endpoint.id f (cleanup_artifact_dir endpoint.id h₁)))

unfoldable pub mark_failed : Environment → Endpoint → String → Host → Result Endpoint × Host
mark_failed env endpoint message h = wind_up env (to_failed message) endpoint h

unfoldable pub stop_endpoint_runtime : Environment → Endpoint → Host → Result Endpoint × Host
stop_endpoint_runtime env endpoint h = wind_up env (to_stopped env.now) endpoint h

-- A loop that has not ended raises nothing that the code could catch; `wait_for_health` ends.
abbrev pub ended : Option (Result (Unit {0})) → Result (Unit {0})
ended none = err (exception "still waiting")
ended (some r) = r

-- Everything up to the container.
unfoldable pub launch : Environment → Endpoint → Model → Host → Result ℕ × Host
launch env endpoint model h =
    if prefix_has_file model.minio_prefix serve_py h.cloud.objects
    then then_run (download_model_artifacts env model endpoint.id h)
        (λ x h₁. start_runner_container env endpoint.id h₁)
    else (
      err (serving_error "serving contract violation: serve.py missing from artifact prefix"),
      h,
    )

-- The health gate.
unfoldable pub gate : Settings → Environment → ℕ → Host → Result (Unit {0})
gate s env container_id h = runner_base_url env container_id h >>= λ base_url.
    ended (wait_for_health s env.number (env.runner base_url) env.now)

-- The end of the `try` block after the container is written down, and the handlers of exceptions.
abbrev pub after_gate : Environment → Endpoint → Result (Unit {0}) → Host → Result Endpoint × Host
after_gate env endpoint (ok x) h = (ok (to_live endpoint), save endpoint.id to_live h)
after_gate env endpoint (err e) h = mark_failed env endpoint (message_of e) h

abbrev pub after_launch :
    Settings → Environment → Endpoint → Result ℕ × Host → Result Endpoint × Host
after_launch s env endpoint (err e, h) = mark_failed env endpoint (message_of e) h
after_launch s env endpoint (ok container_id, h) =
    let h₁ = save endpoint.id (with_container container_id) h in
    after_gate env (with_container container_id endpoint) (gate s env container_id h₁) h₁

unfoldable pub activate_endpoint :
    Settings → Environment → Endpoint → Model → Host → Result Endpoint × Host
activate_endpoint s env endpoint model h = after_launch s env endpoint (launch env endpoint model h)
