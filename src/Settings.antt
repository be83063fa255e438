-- ===== src/Settings.antt =====
-- api/config.py: the settings that the modelled code reads, and their defaults.
use perzforge.Prelude.{ℕ, ◌*◌, Bool, true, String, [], Text, codes}

-- Numbers that the source writes as floats (two timeouts) are not read by the model and left out.
pub record Settings : Type 0 where
  pub jwt_access_ttl_minutes : ℕ
  pub jwt_refresh_ttl_days : ℕ
  pub environment : String
  pub allowed_image_prefixes : Text
  pub max_concurrent_jobs_per_user : ℕ
  pub max_jobs_per_day_per_user : ℕ
  pub max_storage_mb_per_user : ℕ
  pub max_instances_per_user : ℕ
  pub max_llm_tokens_per_day_per_user : ℕ
  pub max_live_endpoints_per_user : ℕ
  pub quota_counter_ttl_seconds : ℕ
  pub worker_lock_ttl_seconds : ℕ
  pub worker_lock_heartbeat_seconds : ℕ
  pub worker_brpop_timeout_seconds : ℕ
  pub job_log_tail_lines : ℕ
  pub job_log_replay_max_lines : ℕ
  pub job_log_ws_thin_interval : ℕ
  pub rate_limit_default_per_min : ℕ
  pub rate_limit_default_burst : ℕ
  pub rate_limit_auth_per_min : ℕ
  pub rate_limit_auth_burst : ℕ
  pub rate_limit_jobs_write_per_hour : ℕ
  pub rate_limit_jobs_write_burst : ℕ
  pub rate_limit_llm_per_min : ℕ
  pub rate_limit_llm_burst : ℕ
  pub mlflow_tracking_uri : Text
  pub docker_job_network : Text
  pub serving_health_timeout_seconds : ℕ
  pub serving_reconcile_on_startup : Bool

abbrev pub default_settings : Settings
default_settings = record {
  jwt_access_ttl_minutes = 15;
  jwt_refresh_ttl_days = 7;
  environment = "dev";
  allowed_image_prefixes = codes "python:,pytorch/,tensorflow/,nvidia/cuda";
  max_concurrent_jobs_per_user = 2;
  max_jobs_per_day_per_user = 10;
  max_storage_mb_per_user = 2048;
  max_instances_per_user = 1;
  max_llm_tokens_per_day_per_user = 50000;
  max_live_endpoints_per_user = 1;
  quota_counter_ttl_seconds = 48 * 60 * 60;
  worker_lock_ttl_seconds = 30;
  worker_lock_heartbeat_seconds = 10;
  worker_brpop_timeout_seconds = 5;
  job_log_tail_lines = 10000;
  job_log_replay_max_lines = 5000;
  job_log_ws_thin_interval = 10;
  rate_limit_default_per_min = 60;
  rate_limit_default_burst = 90;
  rate_limit_auth_per_min = 5;
  rate_limit_auth_burst = 5;
  rate_limit_jobs_write_per_hour = 10;
  rate_limit_jobs_write_burst = 10;
  rate_limit_llm_per_min = 20;
  rate_limit_llm_burst = 20;
  mlflow_tracking_uri = codes "http://127.0.0.1:5000";
  docker_job_network = [];
  serving_health_timeout_seconds = 60;
  serving_reconcile_on_startup = true;
}
