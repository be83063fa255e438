-- ===== src/Serving/Health.antt =====
-- `wait_for_health` of api/serving.py: a runner is asked for its health until it answers 200 or the
-- time is over. Times are in milliseconds.
pub mod Deadline
use perzforge.Prelude.{
  ℕ, zero, suc, ◌+◌, ◌*◌, Bool, true, false, Option, none, some, List, [], ◌∷◌, String, concat, ltb,
  ◌==◌, if◌then◌else◌,
}
use perzforge.Settings.{Settings}
use perzforge.Http.{Result, ok, err, Error, serving_error}

-- What one GET of /healthz gives: a response with its status code, or an `httpx.HTTPError`.
pub data Answer : Type 0 where
  response : ℕ → Answer
  http_error : String → Answer

-- The requests to a runner: the answer to the request that is made at a time, and how long it takes.
pub record Runner : Type 0 where
  pub answer : ℕ → Answer
  pub takes : ℕ → ℕ

abbrev pub is_healthy : Answer → Bool
is_healthy (response status_code) = status_code == 200
is_healthy (http_error message) = false

-- `last_error` after an answer that is not healthy; the first parameter prints a number.
abbrev pub described : (ℕ → String) → Answer → String
described number (response status_code) = concat "healthz returned " (number status_code)
described number (http_error message) = message

-- When the next request is made: after this one, and half a second of sleep.
abbrev pub next_request : Runner → ℕ → ℕ
next_request r now = now + r.takes now + 500

-- The loop, on fuel: `none` is a loop that has not ended.
unfoldable pub poll : (ℕ → String) → Runner → ℕ → ℕ → String → ℕ → Option (Result (Unit {0}))
poll number r deadline zero last_error now = none
poll number r deadline (suc fuel) last_error now =
    let rest = poll number r deadline fuel (described number (r.answer now)) (next_request r now) in
    if ltb now deadline
    then (if is_healthy (r.answer now) then some (ok tt) else rest)
    else some (err (serving_error (concat "endpoint unhealthy within timeout: " last_error)))

-- The number of requests that fit before the deadline, and one round to see that it has passed.
unfoldable pub rounds : Settings → ℕ
rounds s = suc (2 * s.serving_health_timeout_seconds)

-- With the timeout of the settings, as `activate_endpoint` calls it.
unfoldable pub wait_for_health : Settings → (ℕ → String) → Runner → ℕ → Option (Result (Unit {0}))
unfolding poll rounds
wait_for_health s number r now =
    poll number r (now + 1000 * s.serving_health_timeout_seconds) (rounds s)
      "health check did not succeed" now
