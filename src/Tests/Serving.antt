-- ===== src/Tests/Serving.antt =====
-- The theorems on the serving of models at concrete inputs.
use perzforge.Prelude.{
  ◌+◌, ◌*◌, ◌≤◌, ◌≡◌, refl, true, none, some, [], ◌∷◌, codes, ltb, if◌then◌else◌,
}
use perzforge.Settings.{default_settings}
use perzforge.Schema.{Endpoint, live, failed}
use perzforge.Http.{ok}
use perzforge.Quota.{
  live_endpoints, count_live_endpoints, enforce, get_or_create_quota, find_quota, default_quota,
  limit_for, current_usage,
}
use perzforge.Quota.Enforce.{limit_of}
use perzforge.Storage.{prefix_has_file, object_exists, list_files}
use perzforge.Registry.{get_owned_model}
use perzforge.RateLimit.Identity.{lower}
use perzforge.Serving.Route.{make_route, route_base, dashed, strip_dash, lstrip_dash}
use perzforge.Serving.Health.{response, http_error, Runner, wait_for_health, poll, rounds}
use perzforge.Serving.Health.Deadline.{Ends, wait_for_health-Ends}
use perzforge.Serving.Docker.{
  Host, Environment, started, download_model_artifacts, download_files, cleanup_artifact_dir,
  start_runner_container, runner_base_url,
}
use perzforge.Serving.Activation.{save, launch, gate, activate_endpoint}
use perzforge.Serving.Activation.Frames.{IsResponsive}
use perzforge.Serving.Endpoints.{deploy_model, insert_endpoint, add_endpoint}
use perzforge.Serving.Endpoints.Deploying.{IsDeployed, deploy_model-IsDeployed}
use perzforge.Tests.Data.{of_alice, cloud, unary}

-- A runner that answers 503 for two seconds and a half, then 200; each request takes a second.
abbrev slow_runner : Runner
slow_runner = record {
  answer = λ now.
      if ltb now 1500
      then http_error "refused"
      else if ltb now 3000
      then response 503
      else response 200;
  takes = λ now. 1000;
}

wait_for_health-Ends_example :
    Ends slow_runner
      (0 + 1000 * default_settings.serving_health_timeout_seconds)
      0
      (wait_for_health default_settings (λ n. "n") slow_runner 0)
wait_for_health-Ends_example = wait_for_health-Ends default_settings (λ n. "n") slow_runner 0

abbrev env : Environment
env = record {
  unreachable = none;
  has_image = true;
  pull_error = none;
  run = started 70;
  lost = none;
  sees = λ c. true;
  removes = λ c. true;
  bindings = λ c. some (codes "32768") ∷ [];
  is_inside = λ e f. true;
  fetch_error = λ f. none;
  runner = λ u. record { answer = λ now. response 200; takes = λ now. 1 };
  number = λ n. "n";
  now = 100;
}

abbrev host : Host
host = record {
  cloud = record cloud {
    objects = record { key = codes "models/a/m/1/serve.py"; size = 3 } ∷ cloud.objects;
  };
  containers = record { id = 60; endpoint_id = 2 } ∷ [];
  artifact_dirs = [];
}

env-IsResponsive : IsResponsive env
env-IsResponsive = record { still_up = refl; removable = λ c. refl; starts = λ c m e. cc }

abbrev deployed : Endpoint
deployed = record {
  id = 4;
  model_id = 5;
  user_id = 1;
  name = codes "m";
  status = live;
  container_id = some 70;
  route = codes "m-aaaa";
  error_message = none;
  created_at = 100;
  stopped_at = none;
}

deployed_lem : (deploy_model default_settings env unary 4 5 none of_alice host).0 ≡ ok deployed
unfolding deploy_model get_owned_model enforce get_or_create_quota find_quota default_quota
    limit_for current_usage count_live_endpoints add_endpoint insert_endpoint make_route route_base
    dashed strip_dash lstrip_dash lower activate_endpoint launch prefix_has_file object_exists
    download_model_artifacts download_files list_files cleanup_artifact_dir start_runner_container
    save gate runner_base_url wait_for_health poll rounds
deployed_lem = refl

deploy_model-IsDeployed_example :
    let h' = (deploy_model default_settings env unary 4 5 none of_alice host).1 in
    ((deployed.id ≡ 4) × IsDeployed deployed host h')
    × (count_live_endpoints h'.cloud.world.db 1
        ≤ limit_of default_settings host.cloud.world of_alice.user live_endpoints)
deploy_model-IsDeployed_example =
    deploy_model-IsDeployed default_settings env unary 4 5 none of_alice deployed host
      env-IsResponsive refl refl deployed_lem

-- An endpoint with its container, one that lost it, and one that has failed.
abbrev ailing : Host
ailing = record host {
  cloud = record host.cloud {
    world = record host.cloud.world {
      db = record host.cloud.world.db {
        endpoints =
            record deployed { id = 2; container_id = some 60 }
            ∷ deployed
            ∷ record deployed { id = 5; status = failed; container_id = none }
            ∷ [];
      };
    };
  };
  artifact_dirs = record { endpoint_id = 4; files = [] } ∷ [];
}
