-- ===== src/Lib.antt =====
-- Perzforge: a verification of the core of the platform, which takes jobs of users through an HTTP
-- API, queues them, runs them in containers by an agent on a node, and keeps their outputs as
-- models in an object store.
--
-- The parts, and the files that model them:
-- * Settings (api/config.py), Schema (api/models.py: rows as records, the database as a record of
--   lists), Http (results of handlers: a value or an exception as a value, with the state beside it).
-- * RateLimit (api/rate_limit.py, api/middleware.py): Bucket is the script TOKEN_BUCKET_LUA, with
--   Expiry for the key's time to live; Policy is resolve_policy and the route table; Identity is
--   client_ip, resolve_identity and bucket_key; Middleware is consume_token, check_rate_limit and
--   rate_limit_middleware around any handler.
-- * Quota (api/quotas.py): limits, usage, enforce and release; a counter of Redis is a number with
--   the time at which it goes.
-- * Pagination and Jobs (api/routers/jobs.py, api/queue.py, api/schemas/job.py): the routes of jobs,
--   each a function from the database, the counters and the queue to a result and the state after.
-- * Auth (api/deps.py, api/scopes.py, api/security.py) and Auth/Session (api/routers/auth.py):
--   principals, scopes, and sessions as families of refresh tokens.
-- * Storage (api/storage.py): the bucket as a list of objects. Registry (worker/artifacts.py and
--   api/routers/models.py): promotion of outputs to models, and their deletion.
-- * Keys (api/routers/keys.py) and Admin (api/routers/admin.py, api/routers/quotas.py,
--   scripts/create_admin.py): API keys, users and their quotas. Keys/Grants puts the requests on keys
--   and users together, beside an abstract account of what each key grants.
-- * Serving (api/serving.py, api/routers/endpoints.py, deploy_model of api/routers/models.py): Route is
--   make_route, Health the poll of a runner, Docker the operations on containers and directories,
--   Activation the way of an endpoint from STARTING to LIVE, FAILED or STOPPED, Reconcile the check at
--   start-up, Endpoints the routes.
-- * Worker (worker/repository.py, worker/agent.py, worker/lock.py, worker/container.py,
--   worker/cancel_listener.py): the agent, its lock, the run of a container (Worker/Container), the
--   task that hears a cancel command (Worker/Listener, with api/job_control.py), and the steps of the
--   API and the agent on the same rows (Worker/Lifecycle).
-- * Logs (worker/logs.py): the collector that cuts the output of a container into lines. LogStream
--   (api/log_stream.py, api/services/job_log_stream.py, api/routers/job_logs.py): the stream of these
--   lines to a client.
-- * Prelude (shared names, Boolean tests, lists, texts, tables) and Tests (the theorems at concrete
--   inputs).
--
-- The API and the agent share the database and Redis: submit_job puts identifiers at the head of
-- the queue, take_job follows them, promote_outputs uses the same enforce as the routes, and the
-- routes require principals that require_scopes let through.
--
-- What the model leaves to mathematics: identifiers and times are natural numbers; the fractions of
-- the token bucket are exact (a token is 1000 * rate_den units), where Lua uses floats, so that a
-- reply may differ from the script's in the last place (the announced seconds may be just too few);
-- str.lower and str.upper are those of ASCII. A number is printed by a parameter (Printing), which
-- the theorems on prefixes require to be faithful. Texts hold no NUL character, which PostgreSQL
-- refuses. SHA-256, argon2, PyJWT and the parse of UUIDs are parameters (Crypto), and so are for
-- the agent the run of a container, which Worker/Container models by itself, the lookup in MLflow
-- and the texts of exceptions (Outside). What Docker, the disk and a runner answer to the code that
-- serves models is given by an Environment, by answers for each container, and for the run of a job
-- by a Course (Worker/Container); shutil.rmtree is taken to remove the directory. The exceptions
-- that run_container does not catch, such as a connection that breaks, have no place in a Course.
-- Whether a send to a client times out, and what JSON decodes to, are parameters of LogStream.
-- Handlers run one at a time, but for the commands of the lock (Worker/Lock/Exclusion);
-- Worker/Lifecycle lets the handlers of jobs come in any order with the two halves of process_job,
-- before and after the container.
--
-- Fuel: delete_chunks takes one more round than there are keys, and each round but the last deletes
-- at least one, so that the loop ends before the fuel. wait_for_health takes one round more than
-- two for each second of its timeout, and each round sleeps for half a second. wait_loop takes one
-- round more than there are seconds, and each round sleeps for a second or up to the deadline.
-- send_line calls itself after a timeout, and with an interval of at least two that call does not
-- try again, so that a depth of two is enough. append_loop takes one more round than there are
-- characters, and each round but the last takes a line away. All other loops go along a list.
--
-- Not modelled: the lookup in MLflow, start-up and routing (api/main.py), the migrations, the web
-- client, the widths of other columns than those for the texts of a job, and the code that only
-- calls libraries (Docker, boto3, FastAPI).
pub mod Prelude
pub mod Settings
pub mod Schema
pub mod Http
pub mod RateLimit
pub mod Quota
pub mod Pagination
pub mod Jobs
pub mod Auth
pub mod Storage
pub mod Registry
pub mod Keys
pub mod Admin
pub mod Serving
pub mod Logs
pub mod LogStream
pub mod Worker
pub mod Tests
