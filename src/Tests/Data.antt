-- ===== src/Tests/Data.antt =====
-- Rows and settings that the tests share.
use perzforge.Prelude.{ℕ, zero, suc, false, none, some, [], ◌∷◌, Text, codes}
use perzforge.Schema.{User, UserRole, Job, JobSpec, queued, running, cancelled, Model, Db}
use perzforge.Quota.{World}
use perzforge.Jobs.{Principal, Platform}
use perzforge.Registry.{Cloud}
use perzforge.Storage.{Printing, Object}
use perzforge.Worker.{Machine, Outside, ContainerRunResult}

abbrev pub alice : User
alice = record {
  id = 1;
  email = "alice@x.org";
  password_hash = "h";
  role = UserRole.user;
  must_change_password = false;
  disabled = false;
  created_at = 0;
}

abbrev pub root : User
root = record alice { id = 3; email = "root@x.org"; role = UserRole.admin }

abbrev pub of_alice : Principal
of_alice = record { user = alice; api_key = none }

abbrev pub of_root : Principal
of_root = record { user = root; api_key = none }

abbrev pub spec : JobSpec
spec = record {
  image = codes "python:3";
  command = codes "python" ∷ [];
  env = [];
  gpu = false;
  timeout_minutes = 5;
}

-- A job of user 2 that ended, at 20.
abbrev pub ended_job : Job
ended_job = record {
  id = 7;
  user_id = 2;
  name = codes "old";
  spec = spec;
  status = cancelled;
  queued_at = 10;
  started_at = none;
  finished_at = some 20;
  worker_id = none;
  exit_code = none;
  error_message = none;
  mlflow_run_id = none;
  artifact_error = none;
}

abbrev pub queued_job : Job
queued_job = record ended_job {
  id = 8;
  user_id = 1;
  name = codes "new";
  status = queued;
  finished_at = none;
}

abbrev pub running_job : Job
running_job = record queued_job { id = 9; status = running; worker_id = some "node" }

-- A model of user 1, and its object.
abbrev pub a_model : Model
a_model = record {
  id = 5;
  user_id = 1;
  name = codes "m";
  version = 1;
  source_job_id = none;
  minio_prefix = codes "models/a/m/1/";
  size_bytes = 2000000;
  framework = none;
  created_at = 0;
}

abbrev pub an_object : Object
an_object = record { key = codes "models/a/m/1/w"; size = 2000000 }

abbrev pub db : Db
db = record {
  users = alice ∷ root ∷ [];
  api_keys = [];
  refresh_tokens = [];
  jobs = ended_job ∷ queued_job ∷ running_job ∷ [];
  job_logs = [];
  quotas = [];
  models = a_model ∷ [];
  endpoints = [];
  usage_logs = [];
}

abbrev pub world : World
world = record { db = db; counters = λ k. none }

abbrev pub platform : Platform
platform = record { world = world; queue = []; cancels = [] }

abbrev pub cloud : Cloud
cloud = record { world = world; objects = an_object ∷ [] }

abbrev pub machine : Machine
machine = record { cloud = cloud; published = []; crashed = false }

-- A run that ends well, with one file of three bytes.
abbrev pub good_run : ContainerRunResult
good_run = record {
  exit_code = some 0;
  error_message = none;
  log_tail = codes "ok";
  timed_out = false;
  cancelled = false;
  outputs_dir = none;
}

abbrev pub outside : Outside
outside = record {
  run_container = λ s j t n. good_run;
  lookup_mlflow_run_id = λ n j. none;
  describe = λ e. "error";
  describe_spec = λ s. "invalid";
}

-- A number as that many letters.
abbrev pub unary : ℕ → Text
unary zero = []
unary (suc n) = b'a' ∷ unary n

abbrev pub printing : Printing
printing = record { uuid_text = unary; decimal = unary; number = λ n. "n" }
