-- ===== src/Serving/Endpoints.antt =====
-- api/routers/endpoints.py, and `deploy_model` of api/routers/models.py. Whose scopes are enough is
-- decided before, by `require_scopes`.
pub mod Deploying
use perzforge.Prelude.{
  ℕ, Bool, true, false, not, ◌&&◌, Option, none, some, List, [], ◌∷◌, ◌++◌, String, Text, codes,
  text_beq, concat, find?, filter, any, length, ◌==◌, if◌then◌else◌,
}
use mathlib.Core.Option
use perzforge.Settings.{Settings}
use perzforge.Schema.{
  User, Endpoint, EndpointStatus, starting, live, stopped, Model, UsageLog, ApiKey, Db, is_admin,
}
use perzforge.Http.{
  Result, ok, err, Error, http, integrity_error, serving_error, exception, then_run,
}
use perzforge.Quota.{World, enforce, live_endpoints}
use perzforge.Jobs.{Principal}
use perzforge.Pagination.{page}
use perzforge.Registry.{Cloud, get_owned_model}
use perzforge.Serving.Route.{make_route}
use perzforge.Serving.Docker.{Host, Environment, runner_base_url}
use perzforge.Serving.Activation.{
  find_endpoint, rows_of, set_endpoints, activate_endpoint, stop_endpoint_runtime,
}

abbrev pub endpoint_not_found : Error
endpoint_not_found = http 404 "Endpoint not found"

abbrev pub owned_endpoint : Principal → Option Endpoint → Result Endpoint
owned_endpoint principal none = err endpoint_not_found
owned_endpoint principal (some endpoint) =
    if not (endpoint.user_id == principal.user.id) && not (is_admin principal.user.role)
    then err endpoint_not_found
    else ok endpoint

unfoldable pub get_owned_endpoint : Db → ℕ → Principal → Result Endpoint
get_owned_endpoint db endpoint_id principal =
    owned_endpoint principal (find_endpoint endpoint_id db)

-- The rows of a page, and the total.
unfoldable pub list_endpoints : ℕ → ℕ → Principal → Db → List Endpoint × ℕ
list_endpoints limit offset principal db =
    let rows = filter (λ e. e.user_id == principal.user.id) db.endpoints in
    (page (λ e. e.created_at) limit offset rows, length rows)

-- STOPPED ends at once; the other three statuses may all be stopped.
abbrev pub stop_from : Environment → EndpointStatus → Endpoint → Host → Result Endpoint × Host
stop_from env EndpointStatus.stopped endpoint h = (ok endpoint, h)
stop_from env _ endpoint h = stop_endpoint_runtime env endpoint h

unfoldable pub stop_endpoint : Environment → ℕ → Principal → Host → Result Endpoint × Host
stop_endpoint env endpoint_id principal h =
    then_run (get_owned_endpoint h.cloud.world.db endpoint_id principal, h)
      (λ endpoint h₁. stop_from env endpoint.status endpoint h₁)

-- What the runner answers to a prediction: JSON by its text, or `none` for invalid JSON.
pub data Upstream : Type 0 where
  timed_out : Upstream
  broken : String → Upstream
  json_reply : ℕ → Option Text → Upstream
  text_reply : ℕ → Text → Upstream

-- The body of the response: what the runner sent, or a detail.
pub data Content : Type 0 where
  payload : Text → Content
  detail : Text → Content

abbrev pub answered : Upstream → Result (ℕ × Content)
answered timed_out = err (http 504 "prediction timed out")
answered (broken message) = err (http 502 (concat "prediction upstream error: " message))
answered (json_reply status_code (some body)) = ok (status_code, payload body)
answered (json_reply status_code none) =
    ok (status_code, detail (codes "upstream returned invalid JSON"))
answered (text_reply status_code body) = ok (status_code, detail body)

abbrev pub log_usage : UsageLog → Host → Host
log_usage usage h = record h {
  cloud = record h.cloud {
    world = record h.cloud.world {
      db = record h.cloud.world.db { usage_logs = h.cloud.world.db.usage_logs ++ usage ∷ [] };
    };
  };
}

abbrev pub usage_of : Principal → Endpoint → UsageLog
usage_of principal endpoint = record {
  user_id = principal.user.id;
  api_key_id = Option.map (λ key. key.id) principal.api_key;
  endpoint_id = endpoint.id;
  request_count = 1;
}

-- `except serving.ServingError`
abbrev pub as_bad_gateway : Result Text → Result Text
as_bad_gateway (err (serving_error message)) = err (http 502 message)
as_bad_gateway r = r

abbrev pub servable : Option Endpoint → Result (Endpoint × ℕ)
servable none = err endpoint_not_found
servable (some endpoint) = with_status endpoint.status endpoint.container_id
  where
    with_status : EndpointStatus → Option ℕ → Result (Endpoint × ℕ)
    with_status EndpointStatus.live (some container_id) = ok (endpoint, container_id)
    with_status _ _ = err endpoint_not_found

-- The request to the runner at a base URL is given.
unfoldable pub predict :
    Environment → (Text → Upstream) → Text → Principal → Host → Result (ℕ × Content) × Host
predict env post route principal h =
    then_run (servable (find? (λ e. text_beq e.route route) h.cloud.world.db.endpoints), h)
      (λ found h₁.
        then_run (as_bad_gateway (runner_base_url env found.1 h₁), h₁)
          (λ base_url h₂.
            then_run (answered (post base_url), h₂)
              (λ response h₃. (ok response, log_usage (usage_of principal found.0) h₃))))

-- `body.name or model.name`
abbrev pub display_name : Option Text → Model → Text
display_name (some (c ∷ name)) model = c ∷ name
display_name _ model = model.name

abbrev pub new_endpoint : (ℕ → Text) → ℕ → ℕ → Option Text → Principal → Model → Endpoint
new_endpoint hex now endpoint_id name principal model = record {
  id = endpoint_id;
  model_id = model.id;
  user_id = principal.user.id;
  name = display_name name model;
  status = starting;
  container_id = none;
  route = make_route hex (display_name name model) endpoint_id;
  error_message = none;
  created_at = now;
  stopped_at = none;
}

-- The row is added, unless another has its route.
unfoldable pub insert_endpoint : Endpoint → Host → Result (Unit {0}) × Host
insert_endpoint endpoint h =
    if any (λ e. text_beq e.route endpoint.route) (rows_of h)
    then (err integrity_error, h)
    else (ok tt, set_endpoints (rows_of h ++ endpoint ∷ []) h)

-- The row, and its activation.
unfoldable pub add_endpoint :
    Settings → Environment → Endpoint → Model → Host → Result Endpoint × Host
add_endpoint s env endpoint model h =
    then_run (insert_endpoint endpoint h) (λ x h₁. activate_endpoint s env endpoint model h₁)

abbrev pub in_world : World → Host → Host
in_world w h = record h { cloud = record h.cloud { world = w } }

-- `enforce` on the database and the counters of the host.
abbrev pub enforce_live : Settings → ℕ → User → Host → Result (Unit {0}) × Host
enforce_live s now user h =
    let (r, w) = enforce s now user live_endpoints 1 h.cloud.world in (r, in_world w h)

unfoldable pub deploy_model :
    Settings
    → Environment
    → (ℕ → Text)
    → ℕ
    → ℕ
    → Option Text
    → Principal
    → Host
    → Result Endpoint × Host
deploy_model s env hex endpoint_id model_id name principal h =
    then_run (get_owned_model h.cloud.world.db model_id principal, h)
      (λ model h₁. then_run (enforce_live s env.now principal.user h₁) (λ x h₂.
        add_endpoint s env (new_endpoint hex env.now endpoint_id name principal model) model h₂))
