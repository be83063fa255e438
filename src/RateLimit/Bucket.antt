-- ===== src/RateLimit/Bucket.antt =====
-- The token bucket of api/rate_limit.py (TOKEN_BUCKET_LUA), which Redis runs atomically.
-- The rate is `rate_num / rate_den` tokens a second, and a bucket counts in units of
-- 1 / (1000 * rate_den) token, so that a millisecond refills exactly `rate_num` units: the
-- script's floating-point numbers are modelled by the exact fractions that they stand for, so that
-- the tokens and the seconds of a reply may differ from the script's in the last place. What follows
-- is the script for a positive rate; with a rate of zero it ends in an error (script_fails).
pub mod Arith
pub mod Admission
pub mod Expiry
use perzforge.Prelude.{
  ℕ, ◌+◌, ◌-◌, ◌*◌, ◌/◌, min, Bool, true, false, Option, none, some, ltb, leb, ◌==◌, if◌then◌else◌,
}

-- ARGV: `capacity`, `rate` (as a fraction) and `cost`.
pub record Params : Type 0 where
  pub capacity : ℕ
  pub rate_num : ℕ
  pub rate_den : ℕ
  pub cost : ℕ

-- The hash at the key: `tokens` in units, `ts` in milliseconds.
pub record Bucket : Type 0 where
  pub tokens : ℕ
  pub ts : ℕ

-- What the script returns.
pub record Reply : Type 0 where
  pub allowed : Bool
  pub remaining : ℕ
  pub limit : ℕ
  pub retry_after : ℕ
  pub reset_unix : ℕ

-- One token, in units.
unfoldable pub unit : Params → ℕ
unit p = 1000 * p.rate_den

unfoldable pub capacity_units : Params → ℕ
capacity_units p = p.capacity * unit p

unfoldable pub cost_units : Params → ℕ
cost_units p = p.cost * unit p

-- `math.ceil(a / b)` for a positive `b`.
unfoldable pub ceil_div : ℕ → ℕ → ℕ
ceil_div a b = (a + (b - 1)) / b

-- The units that a second refills.
unfoldable pub per_second : Params → ℕ
per_second p = 1000 * p.rate_num

-- `elapsed`, in milliseconds; a clock that went back counts as no time.
unfoldable pub elapsed_ms : ℕ → ℕ → ℕ
elapsed_ms ts now_ms = if ltb now_ms ts then 0 else now_ms - ts

-- The state that the script starts from: a missing key is a full bucket.
unfoldable pub load : Params → ℕ → Option Bucket → Bucket
load p now_ms none = record { tokens = capacity_units p; ts = now_ms }
load p now_ms (some b) = b

unfoldable pub refill : Params → ℕ → Bucket → Bucket
unfolding elapsed_ms
refill p now_ms b = record {
  tokens = min (capacity_units p) (b.tokens + elapsed_ms b.ts now_ms * p.rate_num);
  ts = now_ms;
}

-- The tokens left, whether the call is allowed, and the seconds to wait if it is not.
unfoldable pub take_cost : Params → ℕ → ℕ × Bool × ℕ
take_cost p tokens =
    if leb (cost_units p) tokens
    then (tokens - cost_units p, true, 0)
    else (let wait = ceil_div (cost_units p - tokens) (per_second p) in
        (tokens, false, if ltb wait 1 then 1 else wait))

-- `ttl_ms`, which PEXPIRE sets on the key.
unfoldable pub ttl_ms : Params → ℕ
ttl_ms p =
    let ttl = ceil_div (p.capacity * 2000 * p.rate_den) p.rate_num in
    if ltb ttl 1000 then 1000 else ttl

-- With a rate of zero the time to live is `inf`, which PEXPIRE refuses, and the script with it.
unfoldable pub script_fails : Params → Bool
script_fails p = p.rate_num == 0

-- The rest of the script after the refill: take the cost, write the hash, and reply.
unfoldable pub finish : Params → ℕ → Bucket → Reply × Bucket
unfolding take_cost
finish p now_ms b =
    let (left, allowed, retry_after) = take_cost p b.tokens in
    (
      record {
        allowed = allowed;
        remaining = left / unit p;
        limit = p.capacity;
        retry_after = retry_after;
        reset_unix = now_ms / 1000 + ceil_div (capacity_units p - left) (per_second p);
      },
      record { tokens = left; ts = b.ts },
    )

-- One run of the script: the reply, and the hash that it writes.
unfoldable pub run_script : Params → ℕ → Option Bucket → Reply × Bucket
unfolding load refill finish
run_script p now_ms stored = finish p now_ms (refill p now_ms (load p now_ms stored))
