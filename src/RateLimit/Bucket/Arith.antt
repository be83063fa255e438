-- ===== src/RateLimit/Bucket/Arith.antt =====
-- Facts about the units of the token bucket that its other proofs share.
use perzforge.Prelude.{ℕ, ◌+◌, ◌*◌, ◌≤◌, ◌<◌, ◌≡◌, true, false, arith, if◌then◌else◌}
use perzforge.RateLimit.Bucket.{
  Params, Bucket, capacity_units, cost_units, ceil_div, elapsed_ms, refill, take_cost, ttl_ms,
}

-- Rounding up loses nothing.
pub le-ceil_div : (a b : ℕ) → 0 < b → a ≤ ceil_div a b * b
unfolding ceil_div
le-ceil_div a b h = grind arith

-- Enough time refills the bucket from any level.
pub refill_full :
    (p : Params) (now_ms : ℕ) (b : Bucket)
    → capacity_units p ≤ b.tokens + elapsed_ms b.ts now_ms * p.rate_num
    → (refill p now_ms b).tokens ≡ capacity_units p
unfolding refill
refill_full p now_ms b h = omega arith

pub refill-le :
    (p : Params) (now_ms : ℕ) (b : Bucket) → (refill p now_ms b).tokens ≤ capacity_units p
unfolding refill
refill-le p now_ms b = omega arith

-- What is taken and what is left make up the level.
pub take_cost_sum :
    (p : Params) (tokens : ℕ)
    → (take_cost p tokens).0 + (if (take_cost p tokens).1 then cost_units p else 0) ≡ tokens
unfolding take_cost
take_cost_sum p tokens = ground arith

pub take_cost_allowed :
    (p : Params) (tokens : ℕ) → cost_units p ≤ tokens → (take_cost p tokens).1 ≡ true
unfolding take_cost
take_cost_allowed p tokens h = ground arith

pub take_cost_denied :
    (p : Params) (tokens : ℕ) → (take_cost p tokens).1 ≡ false → tokens < cost_units p
unfolding take_cost
take_cost_denied p tokens h = ground arith

pub ttl_covers :
    (p : Params) → 0 < p.rate_num → p.capacity * 2000 * p.rate_den ≤ ttl_ms p * p.rate_num
unfolding ttl_ms
ttl_covers p h = grind (arith, le-ceil_div (p.capacity * 2000 * p.rate_den) p.rate_num h)

le-elapsed : (ts now_ms d : ℕ) → ts + d ≤ now_ms → d ≤ elapsed_ms ts now_ms
unfolding elapsed_ms
le-elapsed ts now_ms d h = ground arith

pub le-elapsed_mul : (ts now_ms d num : ℕ) → ts + d ≤ now_ms → d * num ≤ elapsed_ms ts now_ms * num
le-elapsed_mul ts now_ms d num h = grind (arith, le-elapsed ts now_ms d h)
