-- ===== src/Tests/Limits.antt =====
-- The theorems on rate limits and quotas at concrete inputs.
use perzforge.Prelude.{
  ◌+◌, ◌-◌, ◌*◌, ◌≤◌, ◌≡◌, ◌↔◌, refl, inl, true, false, Option, none, some, List, [], ◌∷◌, Text,
  codes, arith,
}
use perzforge.Settings.{default_settings}
use perzforge.RateLimit.Bucket.{Params, Bucket, cost_units, capacity_units, unit}
use perzforge.RateLimit.Bucket.Admission.{forward_ms, last_time, serve_burst_and_rate}
use perzforge.RateLimit.Bucket.Admission
use perzforge.RateLimit.Bucket.Expiry.{level, replies_expiring, replies_kept, expiry_unseen}
use perzforge.RateLimit.Policy.{resolve_policy, upper, auth_policy}
use perzforge.RateLimit.Policy.Routes.{force_ip_exactly, IsCredentialPath}
use perzforge.RateLimit.Middleware.{RateStore, Request, params_of}
use perzforge.RateLimit.Middleware.Attempts.{
  Timed, serve, attempts, attempt_times, auth_params, attempts_bounded,
}
use perzforge.Quota.{
  storage_mb, current_usage, enforce, release, get_or_create_quota, limit_for, read_redis_counter,
}
use perzforge.Quota.Enforce.{
  limit_of, enforce-ok, enforce-usage, enforce-others, release-enforce, storage_forgotten,
}
use perzforge.Http.{ok}
use perzforge.Tests.Data.{alice, world}

-- Five tokens, two for a second, one a call.
abbrev params : Params
params = record { capacity = 5; rate_num = 2; rate_den = 1; cost = 1 }

abbrev full_bucket : Bucket
full_bucket = record { tokens = 5000; ts = 0 }

abbrev empty_bucket : Bucket
empty_bucket = record { tokens = 0; ts = 1000 }

abbrev home : Text
home = codes "10.0.0.1"

abbrev no_token : Text → Option (Option Text)
no_token t = none

abbrev login_request : Request
login_request = record {
  method = codes "POST";
  path = codes "/api/v1/auth/login";
  headers = λ name. none;
  client_host = some home;
  authorization = none;
}

abbrev logins : List Timed
logins =
    record { request = login_request; now_ms = 10 }
    ∷ record { request = login_request; now_ms = 20 }
    ∷ []

abbrev fresh_store : RateStore
fresh_store = record { up = true; script_loaded = false; keys = λ name. none }

attempts_bounded_example :
    attempts default_settings no_token home
        (serve default_settings no_token logins fresh_store []).1
      * cost_units (auth_params default_settings)
    ≤ level (auth_params default_settings) none
      + forward_ms 0 (attempt_times default_settings no_token home logins)
        * (auth_params default_settings).rate_num
unfolding params_of auth_policy
attempts_bounded_example =
    attempts_bounded default_settings no_token home logins fresh_store 0 (omega arith) refl tt

serve_burst_and_rate_example :
    (Admission.serve params full_bucket (100 ∷ 200 ∷ [])).0 * cost_units params
    ≤ capacity_units params + (200 - 0) * 2
unfolding capacity_units unit
serve_burst_and_rate_example =
    serve_burst_and_rate params full_bucket (100 ∷ 200 ∷ []) (omega arith) (omega arith)
      (omega arith, (omega arith, tt))

expiry_unseen_example :
    replies_expiring params none (10 ∷ 20 ∷ 900000 ∷ [])
    ≡ replies_kept params none (10 ∷ 20 ∷ 900000 ∷ [])
expiry_unseen_example = expiry_unseen params (10 ∷ 20 ∷ 900000 ∷ []) (omega arith)

force_ip_exactly_example :
    ((resolve_policy default_settings (codes "post") (codes "/api/v1/auth/login/")).force_ip ≡ true)
    ↔ ((upper (codes "post") ≡ codes "POST") × IsCredentialPath (codes "/api/v1/auth/login/"))
force_ip_exactly_example =
    force_ip_exactly default_settings (codes "post") (codes "/api/v1/auth/login/")

enforce-ok_example : ((enforce default_settings 90000 alice storage_mb 3 world).0 ≡ ok tt) ↔ (
    (1 ≤ 3)
    × (current_usage world 1 storage_mb 90000 + 3
        ≤ limit_of default_settings world alice storage_mb))
enforce-ok_example = enforce-ok default_settings 90000 alice storage_mb 3 world

-- The enforcement of three megabytes succeeds.
three_fit : (enforce default_settings 90000 alice storage_mb 3 world).0 ≡ ok tt
unfolding current_usage read_redis_counter limit_for get_or_create_quota
three_fit =
    (enforce-ok default_settings 90000 alice storage_mb 3 world).1 (omega arith, omega arith)

enforce-usage_example :
    current_usage (enforce default_settings 90000 alice storage_mb 3 world).1 1 storage_mb 90000
    ≡ current_usage world 1 storage_mb 90000 + 3
enforce-usage_example =
    enforce-usage default_settings 90000 alice storage_mb 3 world (omega arith) three_fit

enforce-others_example :
    current_usage (enforce default_settings 90000 alice storage_mb 3 world).1 2 storage_mb 90000
    ≡ current_usage world 2 storage_mb 90000
enforce-others_example =
    enforce-others default_settings 90000 alice storage_mb 3 world 2 90000 (inl (omega arith))
      three_fit

release-enforce_example :
    let w' = (enforce default_settings 90000 alice storage_mb 3 world).1 in
    current_usage
      (record w' { counters = (release 90000 alice storage_mb 3 w'.counters).1 })
      1
      storage_mb
      90000
    ≡ current_usage world 1 storage_mb 90000
release-enforce_example =
    release-enforce default_settings 90000 alice storage_mb 3 world (omega arith) refl three_fit

storage_forgotten_example :
    current_usage (enforce default_settings 90000 alice storage_mb 3 world).1 1 storage_mb 400000
    ≡ 0
storage_forgotten_example =
    storage_forgotten default_settings 90000 400000 alice 3 world refl three_fit (omega arith)
