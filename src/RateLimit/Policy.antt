-- ===== src/RateLimit/Policy.antt =====
-- The tiers, the route registry and `resolve_policy` of api/rate_limit.py. Paths and methods are
-- lists of code points; `str.upper` is that of ASCII, which HTTP methods are.
pub mod Routes
use perzforge.Prelude.{
  ℕ, ◌+◌, ◌-◌, ◌≡◌, refl, Bool, true, false, ◌&&◌, ◌||◌, List, [], ◌∷◌, ◌++◌, map, Text, codes,
  text_beq, any, starts_with, leb, ◌==◌, if◌then◌else◌, not,
}
use perzforge.Settings.{Settings}

-- `rate_per_second` is `rate_num / rate_den`.
pub record RateLimitPolicy : Type 0 where
  pub name : Text
  pub rate_num : ℕ
  pub rate_den : ℕ
  pub burst : ℕ
  pub force_ip : Bool

unfoldable pub default_policy : Settings → RateLimitPolicy
default_policy s = record {
  name = codes "default";
  rate_num = s.rate_limit_default_per_min;
  rate_den = 60;
  burst = s.rate_limit_default_burst;
  force_ip = false;
}

unfoldable pub auth_policy : Settings → RateLimitPolicy
auth_policy s = record {
  name = codes "auth";
  rate_num = s.rate_limit_auth_per_min;
  rate_den = 60;
  burst = s.rate_limit_auth_burst;
  force_ip = true;
}

unfoldable pub jobs_write_policy : Settings → RateLimitPolicy
jobs_write_policy s = record {
  name = codes "jobs_write";
  rate_num = s.rate_limit_jobs_write_per_hour;
  rate_den = 3600;
  burst = s.rate_limit_jobs_write_burst;
  force_ip = false;
}

unfoldable pub llm_policy : Settings → RateLimitPolicy
llm_policy s = record {
  name = codes "llm";
  rate_num = s.rate_limit_llm_per_min;
  rate_den = 60;
  burst = s.rate_limit_llm_burst;
  force_ip = false;
}

pub data Match : Type 0 where
  exact prefix : Match

pub record RouteRule : Type 0 where
  pub methods : List Text
  pub path : Text
  pub match : Match
  pub policy_factory : Settings → RateLimitPolicy

unfoldable pub login_rule : RouteRule
login_rule = record {
  methods = codes "POST" ∷ [];
  path = codes "/api/v1/auth/login";
  match = exact;
  policy_factory = auth_policy;
}

unfoldable pub refresh_rule : RouteRule
refresh_rule = record {
  methods = codes "POST" ∷ [];
  path = codes "/api/v1/auth/refresh";
  match = exact;
  policy_factory = auth_policy;
}

unfoldable pub jobs_rule : RouteRule
jobs_rule = record {
  methods = codes "POST" ∷ [];
  path = codes "/api/v1/jobs";
  match = exact;
  policy_factory = jobs_write_policy;
}

unfoldable pub llm_rule : RouteRule
llm_rule = record {
  methods = codes "GET" ∷ codes "POST" ∷ codes "PUT" ∷ codes "PATCH" ∷ codes "DELETE" ∷ [];
  path = codes "/api/v1/llm";
  match = prefix;
  policy_factory = llm_policy;
}

-- ROUTE_RULES
unfoldable pub route_rules : List RouteRule
unfolding auth_policy jobs_write_policy llm_policy login_rule refresh_rule jobs_rule llm_rule
route_rules = login_rule ∷ refresh_rule ∷ jobs_rule ∷ llm_rule ∷ []

keep_or_drop : ℕ → Text → Text
keep_or_drop c [] = if c == b'/' then [] else c ∷ []
keep_or_drop c (d ∷ s) = c ∷ d ∷ s

-- `path.rstrip("/")`
unfoldable pub rstrip_slash : Text → Text
unfolding keep_or_drop
rstrip_slash [] = []
rstrip_slash (c ∷ s) = keep_or_drop c (rstrip_slash s)

or_root : Text → Text
or_root [] = b'/' ∷ []
or_root (c ∷ s) = c ∷ s

-- `path.rstrip("/") or "/"`
unfoldable pub normalized : Text → Text
unfolding rstrip_slash or_root
normalized path = or_root (rstrip_slash path)

-- `str.upper` on ASCII.
unfoldable pub upper : Text → Text
upper s = map (λ c. if leb b'a' c && leb c b'z' then c - 32 else c) s

unfoldable pub matches : RouteRule → Text → Bool
unfolding normalized
matches rule path = elim rule.match [
  | exact ↦ text_beq path (normalized rule.path)
  | prefix ↦
      text_beq path (normalized rule.path) || starts_with (normalized rule.path ++ b'/' ∷ []) path
]

-- The loop over the rules; the method is in upper case and the path is normalized.
unfoldable pub first_match : Settings → List RouteRule → Text → Text → RateLimitPolicy
unfolding matches default_policy
first_match s [] method path = default_policy s
first_match s (rule ∷ rules) method path =
    if not (any (text_beq method) rule.methods)
    then first_match s rules method path
    else if matches rule path
    then rule.policy_factory s
    else first_match s rules method path

unfoldable pub resolve_policy : Settings → Text → Text → RateLimitPolicy
unfolding first_match route_rules upper normalized
resolve_policy s method path = first_match s route_rules (upper method) (normalized path)

unfoldable pub is_exempt_path : Text → Bool
unfolding normalized
is_exempt_path path =
    any (text_beq (normalized path)) (codes "/api/v1/healthz" ∷ codes "/healthz" ∷ [])
