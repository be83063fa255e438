-- ===== src/RateLimit/Bucket/Admission.antt =====
-- How many calls a token bucket lets through.
use native.Mathlib.Nat.{add-mul}
use perzforge.Prelude.{
  ℕ, ◌+◌, ◌-◌, ◌*◌, ◌≤◌, ◌<◌, ◌≡◌, refl, Option, some, List, [], ◌∷◌, arith, if◌then◌else◌,
}
use perzforge.RateLimit.Bucket.{
  Params, Bucket, capacity_units, cost_units, elapsed_ms, load, refill, run_script,
}
use perzforge.RateLimit.Bucket.Arith.{refill-le, take_cost_sum}

-- Runs of the script for one key at the given times, in the order in which Redis makes them:
-- the number of calls allowed, and the hash at the end.
pub serve : Params → Bucket → List ℕ → ℕ × Bucket
serve p b [] = (0, b)
serve p b (now_ms ∷ times) =
    let (reply, b') = run_script p now_ms (some b) in
    let (n, last) = serve p b' times in ((if reply.allowed then 1 else 0) + n, last)

-- The milliseconds by which the clock went forward from one call to the next, added up.
abbrev pub forward_ms : ℕ → List ℕ → ℕ
forward_ms ts [] = 0
forward_ms ts (now_ms ∷ times) = elapsed_ms ts now_ms + forward_ms now_ms times

-- The times do not decrease.
abbrev pub Ascending : ℕ → List ℕ → Type 0
Ascending ts [] = Unit
Ascending ts (now_ms ∷ times) = (ts ≤ now_ms) × Ascending now_ms times

abbrev pub last_time : ℕ → List ℕ → ℕ
last_time ts [] = ts
last_time ts (now_ms ∷ times) = last_time now_ms times

-- One run takes its cost from what was there and what the time refilled.
pub run_script_sum :
    (p : Params) (now_ms : ℕ) (b : Bucket)
    → let (reply, b') = run_script p now_ms (some b) in
      b'.tokens + (if reply.allowed then cost_units p else 0)
      ≤ b.tokens + elapsed_ms b.ts now_ms * p.rate_num
unfolding run_script
run_script_sum p now_ms b =
    unfold refill in grind (arith, take_cost_sum p (refill p now_ms b).tokens)

ts-run_script :
    (p : Params) (now_ms : ℕ) (o : Option Bucket) → (run_script p now_ms o).1.ts ≡ now_ms
unfolding run_script
ts-run_script p now_ms o = refl

-- A run never leaves more than the capacity.
pub run_script-le :
    (p : Params) (now_ms : ℕ) (o : Option Bucket)
    → (run_script p now_ms o).1.tokens ≤ capacity_units p
unfolding run_script
run_script-le p now_ms o = ground (
  arith,
  refill-le p now_ms (load p now_ms o),
  take_cost_sum p (refill p now_ms (load p now_ms o)).tokens,
)

serve_sum :
    (p : Params) (b : Bucket) (times : List ℕ)
    → (serve p b times).0 * cost_units p + (serve p b times).1.tokens
      ≤ b.tokens + forward_ms b.ts times * p.rate_num
unfolding serve
serve_sum p b [] = omega arith
serve_sum p b (now_ms ∷ times) =
    let b' = (run_script p now_ms (some b)).1 in
    grind (
      arith,
      run_script_sum p now_ms b,
      ts-run_script p now_ms (some b),
      serve_sum p b' times,
      add-mul (elapsed_ms b.ts now_ms) (forward_ms now_ms times) p.rate_num,
      add-mul 1 (serve p b' times).0 (cost_units p),
    )

forward_ms-eq :
    (ts : ℕ) (times : List ℕ) → Ascending ts times → ts + forward_ms ts times ≡ last_time ts times
unfolding elapsed_ms
forward_ms-eq ts [] h = omega arith
forward_ms-eq ts (now_ms ∷ times) h = ground (arith, forward_ms-eq now_ms times h.1)

-- Over any sequence of calls, the cost of the calls let through is at most the tokens at the start
-- and what the forward movement of the clock refills, whatever the clock does in between.
pub serve_admission :
    (p : Params) (b : Bucket) (times : List ℕ)
    → (serve p b times).0 * cost_units p ≤ b.tokens + forward_ms b.ts times * p.rate_num
serve_admission p b times = omega (arith, serve_sum p b times)

-- With a positive rate, from a bucket that holds at most its capacity, and under a clock that does
-- not go back, the calls let through cost at most the burst capacity and the rate times the time
-- passed, in exact fractions.
pub serve_burst_and_rate :
    (p : Params) (b : Bucket) (times : List ℕ)
    → 0 < p.rate_num
    → b.tokens ≤ capacity_units p
    → Ascending b.ts times
    → (serve p b times).0 * cost_units p
      ≤ capacity_units p + (last_time b.ts times - b.ts) * p.rate_num
serve_burst_and_rate p b times pos full up =
    let e : forward_ms b.ts times ≡ last_time b.ts times - b.ts =
      omega (arith, forward_ms-eq b.ts times up) in
    rw (← e) (omega (arith, serve_sum p b times))

-- However the calls fall, the bucket never holds more than its capacity.
pub serve-le :
    (p : Params) (b : Bucket) (times : List ℕ)
    → b.tokens ≤ capacity_units p
    → (serve p b times).1.tokens ≤ capacity_units p
unfolding serve
serve-le p b [] h = h
serve-le p b (now_ms ∷ times) h =
    serve-le p (run_script p now_ms (some b)).1 times (run_script-le p now_ms (some b))
