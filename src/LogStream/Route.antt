-- ===== src/LogStream/Route.antt =====
-- api/routers/job_logs.py: the route of the log stream, from the token to the last line.
use perzforge.Prelude.{
  ℕ, Bool, true, false, not, ◌||◌, Option, none, some, List, [], ◌∷◌, Text, filter, map, ◌==◌,
  if◌then◌else◌,
}
use perzforge.Settings.{Settings}
use perzforge.Schema.{Job, JobStatus, JobLog, Db, jobs_read, is_admin}
use perzforge.Http.{Result, ok, err, Error, ◌>>=◌}
use perzforge.Jobs.{Principal, find_job}
use perzforge.Auth.{Crypto, has_scope, scopes_of, resolve_principal_from_token}
use perzforge.LogStream.{Json, Relay, new_relay, send_depth, send_line, relay_job}

-- FINISHED_STATUSES
abbrev pub is_finished : JobStatus → Bool
is_finished JobStatus.succeeded = true
is_finished JobStatus.failed = true
is_finished JobStatus.cancelled = true
is_finished _ = false

-- The stored log, a row at a time.
unfoldable pub send_rows : Settings → (ℕ → Bool) → List Text → Relay → Result Relay
send_rows s slow [] r = ok r
send_rows s slow (content ∷ contents) r =
    let rest = λ (q : Relay). send_rows s slow contents q in
    send_line s slow send_depth content r >>= rest

-- How the route ends: with a WebSocketException of a code, with an exception of the stream, or with
-- what was sent, and whether the socket was closed.
pub data Served : Type 0 where
  refused : ℕ → Served
  broke : Error → Served
  streamed : Bool → Relay → Served

abbrev pub ws_unauthenticated : ℕ
ws_unauthenticated = 4401

abbrev pub ws_forbidden : ℕ
ws_forbidden = 4403

abbrev pub ws_not_found : ℕ
ws_not_found = 4404

abbrev pub job_visible_to_principal : Job → Principal → Bool
job_visible_to_principal job principal =
    job.user_id == principal.user.id || is_admin principal.user.role

abbrev pub served : Result (Bool × Relay) → Served
served (ok (closed, r)) = streamed closed r
served (err e) = broke e

abbrev pub serve_logs : Settings → Json → (ℕ → Bool) → List Text → List Text → Db → Job → Served
serve_logs s eof_of slow buffer messages db job =
    if is_finished job.status
    then served (
        send_rows s slow
          (map (λ row. row.content) (filter (λ (row : JobLog). row.job_id == job.id) db.job_logs))
          new_relay
        >>= λ r. ok (true, r))
    else served (relay_job s eof_of slow buffer messages new_relay)

abbrev pub visible_logs :
    Settings → Json → (ℕ → Bool) → List Text → List Text → Db → Principal → Option Job → Served
visible_logs s eof_of slow buffer messages db principal none = refused ws_not_found
visible_logs s eof_of slow buffer messages db principal (some job) =
    if not (job_visible_to_principal job principal)
    then refused ws_not_found
    else serve_logs s eof_of slow buffer messages db job

abbrev pub logs_as :
    Settings → Json → (ℕ → Bool) → List Text → List Text → ℕ → Result Principal × Db → Served
logs_as s eof_of slow buffer messages job_id (err e, db) = refused ws_unauthenticated
logs_as s eof_of slow buffer messages job_id (ok principal, db) =
    if not (has_scope jobs_read (scopes_of principal))
    then refused ws_forbidden
    else visible_logs s eof_of slow buffer messages db principal (find_job job_id db)

-- The token is the one of the query; the buffer and the messages are those of the job.
unfoldable pub stream_job_logs :
    Settings
    → Json
    → Crypto
    → (ℕ → Bool)
    → ℕ
    → Option Text
    → ℕ
    → List Text
    → List Text
    → Db
    → Served
stream_job_logs s eof_of c slow now none job_id buffer messages db = refused ws_unauthenticated
stream_job_logs s eof_of c slow now (some []) job_id buffer messages db = refused ws_unauthenticated
stream_job_logs s eof_of c slow now (some (x ∷ token)) job_id buffer messages db =
    logs_as s eof_of slow buffer messages job_id (resolve_principal_from_token c now (x ∷ token) db)
