-- ===== src/Quota.antt =====
-- api/quotas.py: limits, usage, `enforce` and `release`. A counter in Redis is a number with the
-- time at which it goes; the day of a counter's key is the number of the UTC day.
pub mod Enforce
pub mod Counting
use perzforge.Prelude.{
  ℕ, ◌+◌, ◌-◌, ◌*◌, ◌/◌, ◌≡◌, Bool, true, false, ◌&&◌, ◌||◌, Option, none, some, List, [], ◌∷◌,
  ◌++◌, String, find?, count, ltb, leb, ◌==◌, if◌then◌else◌,
}
use perzforge.Settings.{Settings}
use perzforge.Schema.{
  User, Quota, Job, JobStatus, queued, running, cancelling, Endpoint, EndpointStatus, starting,
  live, Db,
}
use perzforge.Http.{Result, ok, err, Error, quota_exceeded, value_error}

pub data QuotaResource : Type 0 where
  concurrent_jobs jobs_per_day storage_mb instances llm_tokens_per_day live_endpoints :
      QuotaResource

-- QUOTA_LIMIT_NAMES
unfoldable pub quota_limit_name : QuotaResource → String
quota_limit_name concurrent_jobs = "max_concurrent_jobs"
quota_limit_name jobs_per_day = "max_jobs_per_day"
quota_limit_name storage_mb = "max_storage_mb"
quota_limit_name instances = "max_instances"
quota_limit_name llm_tokens_per_day = "max_llm_tokens_per_day"
quota_limit_name live_endpoints = "max_live_endpoints"

-- DAILY_REDIS_RESOURCES
abbrev pub is_daily : QuotaResource → Bool
is_daily jobs_per_day = true
is_daily llm_tokens_per_day = true
is_daily _ = false

-- ABSOLUTE_REDIS_RESOURCES
abbrev pub is_absolute : QuotaResource → Bool
is_absolute storage_mb = true
is_absolute instances = true
is_absolute _ = false

-- ACTIVE_JOB_STATUSES
abbrev pub is_active : JobStatus → Bool
is_active JobStatus.queued = true
is_active JobStatus.running = true
is_active JobStatus.cancelling = true
is_active _ = false

-- ACTIVE_ENDPOINT_STATUSES
abbrev pub is_active_endpoint : EndpointStatus → Bool
is_active_endpoint EndpointStatus.starting = true
is_active_endpoint EndpointStatus.live = true
is_active_endpoint _ = false

-- A place in the enumeration, to compare two resources.
abbrev pub ordinal : QuotaResource → ℕ
ordinal concurrent_jobs = 0
ordinal jobs_per_day = 1
ordinal storage_mb = 2
ordinal instances = 3
ordinal llm_tokens_per_day = 4
ordinal live_endpoints = 5

-- The key of a counter; a key of an absolute resource has no day.
pub record CounterKey : Type 0 where
  pub user_id : ℕ
  pub resource : QuotaResource
  pub day : Option ℕ

abbrev pub day_beq : Option ℕ → Option ℕ → Bool
day_beq none none = true
day_beq (some d) (some e) = d == e
day_beq _ _ = false

abbrev pub key_beq : CounterKey → CounterKey → Bool
key_beq k l =
    k.user_id == l.user_id && ordinal k.resource == ordinal l.resource && day_beq k.day l.day

pub record Counter : Type 0 where
  pub value : ℕ
  pub expires_at : Option ℕ

abbrev pub Counters : Type 0
Counters = CounterKey → Option Counter

-- What GET, INCRBY and DECRBY find of a counter.
abbrev pub unexpired : ℕ → Option Counter → Option Counter
unexpired now none = none
unexpired now (some (c)) = elim c.expires_at [
  | none ↦ some c
  | some t ↦ if leb t now then none else some c
]

abbrev pub set_counter : Counters → CounterKey → Counter → Counters
set_counter counters key c other = if key_beq key other then some c else counters other

-- The state that quotas touch.
pub record World : Type 0 where
  pub db : Db
  pub counters : Counters

-- _day_key
unfoldable pub day_key : ℕ → ℕ
day_key now = now / 86400

unfoldable pub quota_counter_key : ℕ → QuotaResource → ℕ → CounterKey
unfolding day_key
quota_counter_key user_id resource now = record {
  user_id = user_id;
  resource = resource;
  day = if is_daily resource then some (day_key now) else none;
}

unfoldable pub default_quota : Settings → ℕ → Quota
default_quota s user_id = record {
  user_id = user_id;
  max_concurrent_jobs = s.max_concurrent_jobs_per_user;
  max_jobs_per_day = s.max_jobs_per_day_per_user;
  max_storage_mb = s.max_storage_mb_per_user;
  max_instances = s.max_instances_per_user;
  max_llm_tokens_per_day = s.max_llm_tokens_per_day_per_user;
  max_live_endpoints = s.max_live_endpoints_per_user;
}

unfoldable pub find_quota : ℕ → Db → Option Quota
find_quota user_id db = find? (λ q. q.user_id == user_id) db.quotas

-- The quota that applies, and the database with its row.
unfoldable pub get_or_create_quota : Settings → User → Db → Quota × Db
unfolding find_quota default_quota
get_or_create_quota s user db = elim (find_quota user.id db) [
  | some quota ↦ (quota, db)
  | none ↦
      (default_quota s user.id, record db { quotas = db.quotas ++ default_quota s user.id ∷ [] })
]

unfoldable pub limit_for : Quota → QuotaResource → ℕ
limit_for q concurrent_jobs = q.max_concurrent_jobs
limit_for q jobs_per_day = q.max_jobs_per_day
limit_for q storage_mb = q.max_storage_mb
limit_for q instances = q.max_instances
limit_for q llm_tokens_per_day = q.max_llm_tokens_per_day
limit_for q live_endpoints = q.max_live_endpoints

unfoldable pub count_concurrent_jobs : Db → ℕ → ℕ
count_concurrent_jobs db user_id = count (λ j. j.user_id == user_id && is_active j.status) db.jobs

unfoldable pub count_live_endpoints : Db → ℕ → ℕ
count_live_endpoints db user_id =
    count (λ e. e.user_id == user_id && is_active_endpoint e.status) db.endpoints

-- `int(raw)`, or 0 for a missing key.
abbrev pub shown : ℕ → Option Counter → ℕ
shown now o = elim (unexpired now o) [ none ↦ 0 | some c ↦ c.value ]

unfoldable pub read_redis_counter : Counters → CounterKey → ℕ → ℕ
read_redis_counter counters key now = shown now (counters key)

unfoldable pub current_usage : World → ℕ → QuotaResource → ℕ → ℕ
current_usage w user_id concurrent_jobs now = count_concurrent_jobs w.db user_id
current_usage w user_id live_endpoints now = count_live_endpoints w.db user_id
current_usage w user_id resource now =
    read_redis_counter w.counters (quota_counter_key user_id resource now) now

-- INCRBY, which keeps the time to live of the key, or makes a key without one.
abbrev pub incremented : Option Counter → ℕ → Counter
incremented none amount = record { value = amount; expires_at = none }
incremented (some c) amount = record c { value = c.value + amount }

-- The EXPIRE after it, for a daily resource and for the first unit of any.
abbrev pub expiring : Bool → ℕ → ℕ → Counter → Counter
expiring daily amount until c =
    if (c.value == amount) || daily then record c { expires_at = some until } else c

-- INCRBY and EXPIRE.
unfoldable pub consume : Settings → ℕ → ℕ → QuotaResource → ℕ → Counters → Counters
consume s now user_id resource amount counters =
    let key = quota_counter_key user_id resource now in
    set_counter counters key (
      expiring (is_daily resource) amount (now + s.quota_counter_ttl_seconds)
        (incremented (unexpired now (counters key)) amount))

unfoldable pub enforce : Settings → ℕ → User → QuotaResource → ℕ → World → Result (Unit {0}) × World
enforce s now user resource amount w =
    if ltb amount 1
    then (err (value_error "amount must be >= 1"), w)
    else (let (quota, db) = get_or_create_quota s user w.db in
        let limit = limit_for quota resource in
        let current = current_usage (record w { db = db }) user.id resource now in
        if ltb limit (current + amount)
        then (err (quota_exceeded (quota_limit_name resource) limit current), record w { db = db })
        else if is_daily resource || is_absolute resource
        then (
          ok tt,
          record { db = db; counters = consume s now user.id resource amount w.counters },
        )
        else (ok tt, record w { db = db }))

-- DECRBY keeps the time to live; the SET of a negative value to 0 drops it.
abbrev pub decremented : Option Counter → ℕ → Counter
decremented none amount = record { value = 0; expires_at = none }
decremented (some c) amount =
    if ltb c.value amount
    then record { value = 0; expires_at = none }
    else record c { value = c.value - amount }

unfoldable pub release : ℕ → User → QuotaResource → ℕ → Counters → Result (Unit {0}) × Counters
release now user resource amount counters =
    if ltb amount 1
    then (err (value_error "amount must be >= 1"), counters)
    else if is_absolute resource || is_daily resource
    then (let key = quota_counter_key user.id resource now in
        (ok tt, set_counter counters key (decremented (unexpired now (counters key)) amount)))
    else (ok tt, counters)
