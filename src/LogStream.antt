-- ===== src/LogStream.antt =====
-- api/log_stream.py and api/services/job_log_stream.py: the lines of a job over a WebSocket. JSON
-- is decoded by a parameter, and so is given whether a send times out.
pub mod Delivery
pub mod Depth
pub mod Route
use perzforge.Prelude.{
  ℕ, zero, suc, ◌+◌, ◌-◌, ◌%◌, Bool, true, false, not, ◌&&◌, ◌||◌, Option, none, some, List, [],
  ◌∷◌, ◌++◌, String, Text, codes, starts_with, take, filter, map, ◌==◌, if◌then◌else◌,
}
use perzforge.Settings.{Settings}
use perzforge.Schema.{
  Job, JobStatus, succeeded, failed, cancelled, JobLog, Db, Scope, jobs_read, is_admin,
}
use perzforge.Http.{Result, ok, err, Error, exception, ◌>>=◌}
use perzforge.Jobs.{Principal, find_job}
use perzforge.Auth.{Crypto, has_scope, scopes_of, resolve_principal_from_token}

-- What `json.loads` makes of a payload, if that is an object whose "event" is "eof": the object, as
-- `json.dumps` prints it.
abbrev pub Json : Type 0
Json = Text → Option Text

pub data Payload : Type 0 where
  line : Text → Payload
  eof : Text → Payload

abbrev pub parsed : Option Text → Text → Payload
parsed none payload = line payload
parsed (some event) payload = eof event

unfoldable pub parse_stream_payload : Json → Text → Payload
parse_stream_payload eof_of payload =
    if not (starts_with (codes "{") payload) then line payload else parsed (eof_of payload) payload

-- A LogWebSocketRelay, with what the client has been sent, oldest first, and how many timed sends
-- there were.
pub record Relay : Type 0 where
  pub thin_mode : Bool
  pub thin_marker_sent : Bool
  pub skipped : ℕ
  pub attempts : ℕ
  pub sent : List Text

abbrev pub new_relay : Relay
new_relay = record {
  thin_mode = false;
  thin_marker_sent = false;
  skipped = 0;
  attempts = 0;
  sent = [];
}

abbrev pub thin_marker : Text
thin_marker = codes "[stream thinned]\n"

abbrev pub send_text : Text → Relay → Relay
send_text text r = record r { sent = r.sent ++ text ∷ [] }

-- The marker, before the first line that thin mode lets through.
abbrev pub mark_thin : Relay → Relay
mark_thin r =
    if r.thin_marker_sent then r else send_text thin_marker (record r { thin_marker_sent = true })

abbrev pub attempted : Relay → Relay
attempted r = record r { attempts = r.attempts + 1 }

abbrev pub thinning : Relay → Relay
thinning r = record r { thin_mode = true; skipped = 0 }

abbrev pub one_skipped : Relay → Relay
one_skipped r = record r { skipped = r.skipped + 1 }

-- The timed send; `again` is `send_line` for the same line.
unfoldable pub attempt : (ℕ → Bool) → Text → (Relay → Result Relay) → Relay → Result Relay
attempt slow text again r =
    if slow r.attempts then again (thinning (attempted r)) else ok (send_text text (attempted r))

-- The body of `send_line`.
unfoldable pub send_once :
    Settings → (ℕ → Bool) → Text → (Relay → Result Relay) → Relay → Result Relay
send_once s slow text again r =
    if not r.thin_mode
    then attempt slow text again r
    else if s.job_log_ws_thin_interval == 0
    then err (exception "integer modulo by zero")
    else if not (((r.skipped + 1) % s.job_log_ws_thin_interval) == 0)
    then ok (one_skipped r)
    else attempt slow text again (mark_thin (one_skipped r))

-- `send_line`, on fuel for its calls of itself after a timeout; Python has a limit for them too.
unfoldable pub send_line : Settings → (ℕ → Bool) → ℕ → Text → Relay → Result Relay
send_line s slow zero text r = err (exception "maximum recursion depth exceeded")
send_line s slow (suc fuel) text r = send_once s slow text (send_line s slow fuel text) r

-- With an interval of at least two, the call after a timeout does not try again.
abbrev pub send_depth : ℕ
send_depth = 2

-- The loop of `replay_buffer`, up to an event that ends the stream.
unfoldable pub replay_lines : Settings → Json → (ℕ → Bool) → List Text → Relay → Result Relay
replay_lines s eof_of slow [] r = ok r
replay_lines s eof_of slow (payload ∷ payloads) r =
    let rest = λ (q : Relay). replay_lines s eof_of slow payloads q in
    elim (parse_stream_payload eof_of payload) [
      | eof event ↦ ok r
      | line text ↦ send_line s slow send_depth text r >>= rest
    ]

-- LRANGE from 0 to `replay_buffer_max_index()`, which is the whole list for a limit of 0.
unfoldable pub replay_buffer : Settings → Json → (ℕ → Bool) → List Text → Relay → Result Relay
unfolding replay_lines
replay_buffer s eof_of slow buffer r =
    replay_lines s eof_of slow
      (if s.job_log_replay_max_lines == 0 then buffer else take s.job_log_replay_max_lines buffer) r

-- What a stream has come to: the event that ended it, or none yet.
abbrev pub Streamed : Type 0
Streamed = Option Text × Relay

-- The loop of `relay_live` over the messages that arrive.
unfoldable pub relay_live : Settings → Json → (ℕ → Bool) → List Text → Relay → Result Streamed
relay_live s eof_of slow [] r = ok (none, r)
relay_live s eof_of slow (payload ∷ payloads) r =
    let rest = λ (q : Relay). relay_live s eof_of slow payloads q in
    elim (parse_stream_payload eof_of payload) [
      | eof event ↦ ok (some event, r)
      | line text ↦ send_line s slow send_depth text r >>= rest
    ]

-- `send_eof`, once there is an event; whether the socket is closed.
abbrev pub finished : Streamed → Bool × Relay
finished (none, r) = (false, r)
finished (some event, r) = (true, send_text event r)

-- The stream of a job that runs: the buffer as it is read, and the messages after the subscription.
unfoldable pub relay_job :
    Settings → Json → (ℕ → Bool) → List Text → List Text → Relay → Result (Bool × Relay)
relay_job s eof_of slow buffer messages r = replay_buffer s eof_of slow buffer r >>= λ q.
    (relay_live s eof_of slow messages q >>= λ streamed. ok (finished streamed))
