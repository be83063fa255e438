-- ===== src/Serving/Health/Deadline.antt =====
-- When `wait_for_health` of api/serving.py ends.
use perzforge.Prelude.{
  ℕ, zero, suc, ◌+◌, ◌*◌, ◌≤◌, ◌<◌, ◌≡◌, ◌⊎◌, inl, inr, refl, true, false, Option, some, String,
  arith, ltb, Bool-cases,
}
use perzforge.Settings.{Settings}
use perzforge.Http.{Result, ok, err, serving_error}
use perzforge.Serving.Health.{
  Runner, is_healthy, described, next_request, poll, rounds, wait_for_health,
}

-- The time of the request after so many others.
abbrev pub request_time : Runner → ℕ → ℕ → ℕ
request_time r zero now = now
request_time r (suc n) now = request_time r n (next_request r now)

-- How the loop ends: at the first request before the deadline that finds the runner healthy, or
-- at the deadline after requests that all did not.
abbrev pub Ends : Runner → ℕ → ℕ → Option (Result (Unit {0})) → Type 0
Ends r deadline now out =
    ((n : ℕ) × (request_time r n now < deadline)
      × (is_healthy (r.answer (request_time r n now)) ≡ true)
      × ((k : ℕ) → k < n → is_healthy (r.answer (request_time r k now)) ≡ false)
      × (out ≡ some (ok tt)))
    ⊎ ((n : ℕ) × (message : String) × (deadline ≤ request_time r n now)
        × ((k : ℕ) → k < n → is_healthy (r.answer (request_time r k now)) ≡ false)
        × (out ≡ some (err (serving_error message))))

before :
    (r : Runner) (now n : ℕ)
    → is_healthy (r.answer now) ≡ false
    → ((k : ℕ) → k < n → is_healthy (r.answer (request_time r k (next_request r now))) ≡ false)
    → (k : ℕ) → k < suc n
    → is_healthy (r.answer (request_time r k now)) ≡ false
before r now n sick rest zero below = sick
before r now n sick rest (suc k) below = rest k (omega arith)

later :
    (r : Runner) (deadline now : ℕ) (out : Option (Result (Unit {0})))
    → is_healthy (r.answer now) ≡ false
    → Ends r deadline (next_request r now) out
    → Ends r deadline now out
later r deadline now out sick (inl (n, soon, healthy, rest, e)) =
    inl (suc n, soon, healthy, before r now n sick rest, e)
later r deadline now out sick (inr (n, message, late, rest, e)) =
    inr (suc n, message, late, before r now n sick rest, e)

module _ (number : ℕ → String) (r : Runner) (deadline : ℕ) where
  late-Ends :
      (fuel : ℕ) (last_error : String) (now : ℕ)
      → ltb now deadline ≡ false
      → Ends r deadline now (poll number r deadline (suc fuel) last_error now)
  unfolding poll
  late-Ends fuel last_error now late =
      rw late (inr (zero, _, ground arith, (λ k below. absurd (omega arith)), refl))

  poll-Ends :
      (fuel : ℕ) (last_error : String) (now : ℕ)
      → deadline ≤ now + 500 * fuel
      → Ends r deadline now (poll number r deadline (suc fuel) last_error now)
  unfolding poll
  poll-Ends zero last_error now enough = late-Ends zero last_error now (ground arith)
  poll-Ends (suc fuel) last_error now enough = elim (Bool-cases (ltb now deadline)) [
    | inr late ↦ late-Ends (suc fuel) last_error now late
    | inl soon ↦ elim (Bool-cases (is_healthy (r.answer now))) [
      | inl healthy ↦
          rw (soon, healthy)
            (inl (zero, ground arith, healthy, (λ k below. absurd (omega arith)), refl))
      | inr sick ↦
          rw (soon, sick)
            (later r deadline now _ sick
              (poll-Ends fuel (described number (r.answer now)) (next_request r now) (omega arith)))
    ]
  ]

-- Waiting for health ends, however the runner answers and however long it takes: with success at
-- the first request before the deadline that is answered with 200, or with the error of a runner
-- that is not healthy, after the deadline and requests of which none was answered with 200.
pub wait_for_health-Ends :
    (s : Settings) (number : ℕ → String) (r : Runner) (now : ℕ)
    → Ends r (now + 1000 * s.serving_health_timeout_seconds) now (wait_for_health s number r now)
unfolding wait_for_health rounds
wait_for_health-Ends s number r now =
    poll-Ends number r (now + 1000 * s.serving_health_timeout_seconds)
      (2 * s.serving_health_timeout_seconds) "health check did not succeed" now (omega arith)
