-- ===== src/Schema.antt =====
-- api/models.py: the rows of the tables, and the database as the lists of its rows. Identifiers
-- (UUIDs) and times (seconds) are numbers; relationships between rows go by the foreign keys.
use perzforge.Prelude.{ℕ, String, Option, List, Bool, true, false, Text}

pub data UserRole : Type 0 where
  admin user readonly : UserRole

pub record User : Type 0 where
  pub id : ℕ
  pub email : String
  pub password_hash : String
  pub role : UserRole
  pub must_change_password : Bool
  pub disabled : Bool
  pub created_at : ℕ

pub data JobStatus : Type 0 where
  queued running cancelling succeeded failed cancelled : JobStatus

-- The specification of a job (api/schemas/job.py), which the row holds as JSON.
pub record JobSpec : Type 0 where
  pub image : Text
  pub command : List Text
  pub env : List (Text × Text)
  pub gpu : Bool
  pub timeout_minutes : ℕ

pub record Job : Type 0 where
  pub id : ℕ
  pub user_id : ℕ
  pub name : Text
  pub spec : JobSpec
  pub status : JobStatus
  pub queued_at : ℕ
  pub started_at : Option ℕ
  pub finished_at : Option ℕ
  pub worker_id : Option String
  pub exit_code : Option ℕ
  pub error_message : Option String
  pub mlflow_run_id : Option String
  pub artifact_error : Option String

pub record JobLog : Type 0 where
  pub job_id : ℕ
  pub content : Text

pub data Scope : Type 0 where
  jobs_read jobs_write models_read llm_invoke instances_manage : Scope

pub record ApiKey : Type 0 where
  pub id : ℕ
  pub user_id : ℕ
  pub name : Text
  pub key_hash : String
  pub prefix : Text
  pub scopes : List Scope
  pub expires_at : Option ℕ
  pub revoked : Bool
  pub last_used_at : Option ℕ
  pub created_at : ℕ

pub record RefreshToken : Type 0 where
  pub id : ℕ
  pub user_id : ℕ
  pub token_hash : String
  pub family_id : ℕ
  pub expires_at : ℕ
  pub revoked : Bool

pub record Quota : Type 0 where
  pub user_id : ℕ
  pub max_concurrent_jobs : ℕ
  pub max_jobs_per_day : ℕ
  pub max_storage_mb : ℕ
  pub max_instances : ℕ
  pub max_llm_tokens_per_day : ℕ
  pub max_live_endpoints : ℕ

pub record Model : Type 0 where
  pub id : ℕ
  pub user_id : ℕ
  pub name : Text
  pub version : ℕ
  pub source_job_id : Option ℕ
  pub minio_prefix : Text
  pub size_bytes : ℕ
  pub framework : Option String
  pub created_at : ℕ

pub data EndpointStatus : Type 0 where
  starting live stopped failed : EndpointStatus

pub record Endpoint : Type 0 where
  pub id : ℕ
  pub model_id : ℕ
  pub user_id : ℕ
  pub name : Text
  pub status : EndpointStatus
  pub container_id : Option ℕ
  pub route : Text
  pub error_message : Option String
  pub created_at : ℕ
  pub stopped_at : Option ℕ

pub record UsageLog : Type 0 where
  pub user_id : ℕ
  pub api_key_id : Option ℕ
  pub endpoint_id : ℕ
  pub request_count : ℕ

pub record Db : Type 0 where
  pub users : List User
  pub api_keys : List ApiKey
  pub refresh_tokens : List RefreshToken
  pub jobs : List Job
  pub job_logs : List JobLog
  pub quotas : List Quota
  pub models : List Model
  pub endpoints : List Endpoint
  pub usage_logs : List UsageLog

abbrev pub is_admin : UserRole → Bool
is_admin UserRole.admin = true
is_admin _ = false
