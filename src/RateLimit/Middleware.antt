-- ===== src/RateLimit/Middleware.antt =====
-- `consume_token`, `rate_limit_headers` and `check_rate_limit` of api/rate_limit.py, and the
-- middleware of api/middleware.py around a handler on a world `W`.
pub mod Attempts
use perzforge.Prelude.{
  ℕ, ◌+◌, ◌≡◌, Bool, true, false, not, ◌&&◌, Option, none, some, List, [], ◌∷◌, ◌++◌, String, Text,
  max, text_beq, if◌then◌else◌,
}
use perzforge.Settings.{Settings}
use perzforge.RateLimit.Bucket.{Params, Reply, script_fails}
use perzforge.RateLimit.Bucket.Expiry.{Key, eval_key}
use perzforge.RateLimit.Policy.{RateLimitPolicy, resolve_policy, is_exempt_path}
use perzforge.RateLimit.Identity.{client_ip, resolve_identity, bucket_key}

-- The part of Redis that limiting uses: whether it answers, whether it has the script, and the
-- bucket keys.
pub record RateStore : Type 0 where
  pub up : Bool
  pub script_loaded : Bool
  pub keys : Text → Option Key

pub record RateLimitResult : Type 0 where
  pub allowed : Bool
  pub limit : ℕ
  pub remaining : ℕ
  pub retry_after : ℕ
  pub reset_unix : ℕ

unfoldable pub params_of : RateLimitPolicy → Params
params_of policy = record {
  capacity = policy.burst;
  rate_num = policy.rate_num;
  rate_den = policy.rate_den;
  cost = 1;
}

unfoldable pub result_of : Reply → RateLimitResult
result_of r = record {
  allowed = r.allowed;
  limit = r.limit;
  remaining = max 0 r.remaining;
  retry_after = max 0 r.retry_after;
  reset_unix = r.reset_unix;
}

-- One key changes, the others stay.
unfoldable pub set_key : (Text → Option Key) → Text → Key → Text → Option Key
set_key keys name key other = if text_beq name other then some key else keys other

-- EVALSHA, after SCRIPT LOAD where Redis answers NOSCRIPT; `none` is a `RedisError`. What a script
-- that fails has written to the key is left out: no reply ever comes from it, since at that rate every
-- call of the key fails.
unfoldable pub consume_token :
    RateLimitPolicy → Text → ℕ → RateStore → Option RateLimitResult × RateStore
consume_token policy identity now_ms store =
    let name = bucket_key policy.name identity in
    let (reply, key) = eval_key (params_of policy) now_ms (store.keys name) in
    if not store.up
    then (none, store)
    else if script_fails (params_of policy)
    then (none, record store { script_loaded = true })
    else (
      some (result_of reply),
      record store { script_loaded = true; keys = set_key store.keys name key },
    )

pub data Header : Type 0 where
  ratelimit_limit ratelimit_remaining ratelimit_reset retry_after : ℕ → Header

unfoldable pub rate_limit_headers : RateLimitResult → List Header
rate_limit_headers r =
    ratelimit_limit r.limit
    ∷ ratelimit_remaining r.remaining
    ∷ ratelimit_reset r.reset_unix
    ∷ (if r.allowed then [] else retry_after r.retry_after ∷ [])

pub record Request : Type 0 where
  pub method : Text
  pub path : Text
  pub headers : Text → Option Text
  pub client_host : Option Text
  pub authorization : Option Text

pub record Response (B : Type 0) : Type 0 where
  pub status : ℕ
  pub headers : List Header
  pub body : B

-- `settings`, `jwt.decode` of a token's `sub`, and whether the application holds a Redis client and
-- the hash of the script.
module _ (s : Settings) (decode : Text → Option (Option Text)) where
  unfoldable pub policy_of : Request → RateLimitPolicy
  policy_of req = resolve_policy s req.method req.path

  unfoldable pub identity_of : Request → Text
  identity_of req =
      resolve_identity decode req.authorization (client_ip req.headers req.client_host)
        (policy_of req).force_ip

  unfoldable pub check_rate_limit :
      Bool → Request → ℕ → RateStore → Option RateLimitResult × RateStore
  check_rate_limit connected req now_ms store =
      if is_exempt_path req.path
      then (none, store)
      else if not connected
      then (none, store)
      else consume_token (policy_of req) (identity_of req) now_ms store

  module _ {W B : Type 0} (refusal : B) (call_next : Request → W → Response B × W) where
    -- The answer to a request whose check is done.
    answer : Option RateLimitResult → Request → W → Response B × W
    answer none req w = call_next req w
    answer (some r) req w =
        let (response, w') = call_next req w in
        if not r.allowed
        then (record { status = 429; headers = rate_limit_headers r; body = refusal }, w)
        else (record response { headers = response.headers ++ rate_limit_headers r }, w')

    unfoldable pub rate_limit_middleware :
        Bool → Request → ℕ → RateStore → W → Response B × RateStore × W
    unfolding answer
    rate_limit_middleware connected req now_ms store w =
        let (result, store') = check_rate_limit connected req now_ms store in
        let (response, w') = answer result req w in (response, store', w')
