-- ===== src/Quota/Enforce.antt =====
-- What `enforce` and `release` of api/quotas.py promise.
use perzforge.Prelude.{
  ℕ, String, ◌∙◌, ◌+◌, ◌-◌, ◌/◌, ◌⊎◌, ◌≤◌, ◌<◌, ◌≡◌, ◌≢◌, ◌↔◌, refl, Bool, true, false, ◌||◌, none,
  arith, if◌then◌else◌, inl, inr, ap, Bool-cases,
}
use perzforge.Settings.{Settings}
use perzforge.Schema.{User, Db}
use perzforge.Http.{ok, err, quota_exceeded}
use perzforge.Quota.{
  QuotaResource, concurrent_jobs, jobs_per_day, storage_mb, instances, llm_tokens_per_day,
  live_endpoints, is_daily, is_absolute, quota_counter_key, read_redis_counter, consume, release,
  World, current_usage, enforce, get_or_create_quota, limit_for, count_concurrent_jobs,
  count_live_endpoints,
}
use perzforge.Quota.Counting.{
  read-consume, read-consume_other, read-release, keys_apart, key_beq_refl, shown_first-expired,
}

-- The limit that applies to a user, whether or not the row is there yet.
abbrev pub limit_of : Settings → World → User → QuotaResource → ℕ
limit_of s w user resource = limit_for (get_or_create_quota s user w.db).0 resource

-- A resource that is counted in Redis.
abbrev pub is_counted : QuotaResource → Bool
is_counted resource = is_daily resource || is_absolute resource

-- Creating the row of a quota does not change what is used.
pub usage-get_or_create :
    (s : Settings) (user : User) (w : World) (user_id : ℕ) (resource : QuotaResource) (now : ℕ)
    → current_usage (record w { db = (get_or_create_quota s user w.db).1 }) user_id resource now
      ≡ current_usage w user_id resource now
unfolding current_usage get_or_create_quota count_concurrent_jobs count_live_endpoints
usage-get_or_create s user w user_id concurrent_jobs now = ground arith
usage-get_or_create s user w user_id live_endpoints now = ground arith
usage-get_or_create s user w user_id resource now = refl

module _ (s : Settings) (now : ℕ) (user : User) (resource : QuotaResource) (amount : ℕ)
    (w : World) where
  -- `enforce` succeeds exactly if the amount is positive and fits under the limit with what is used.
  pub enforce-ok : ((enforce s now user resource amount w).0 ≡ ok tt) ↔ (
      (1 ≤ amount) × (current_usage w user.id resource now + amount ≤ limit_of s w user resource))
  unfolding enforce
  enforce-ok =
      let e = usage-get_or_create s user w user.id resource now in
      ((λ h. ground arith), (λ h. ground arith))

  -- A refusal for the quota names the limit and the usage, which leave no room for the amount, and
  -- it consumes nothing.
  pub enforce-exceeded :
      (name : String) (limit current : ℕ)
      → (enforce s now user resource amount w).0 ≡ err (quota_exceeded name limit current)
      → (limit ≡ limit_of s w user resource)
        × (current ≡ current_usage w user.id resource now)
        × (limit < current + amount)
        × ((enforce s now user resource amount w).1.counters ≡ w.counters)
  unfolding enforce
  enforce-exceeded name limit current h =
      let e = usage-get_or_create s user w user.id resource now in ground arith

  -- The state after an `enforce` that succeeds.
  enforce-world :
      (enforce s now user resource amount w).0 ≡ ok tt
      → (enforce s now user resource amount w).1 ≡ record {
        db = (get_or_create_quota s user w.db).1;
        counters =
            if is_counted resource
            then consume s now user.id resource amount w.counters
            else w.counters;
      }
  unfolding enforce
  enforce-world h = ground arith

-- The usage of a counter does not depend on the tables.
pub usage-tables :
    (w : World) (db : Db) (user_id now : ℕ)
    → current_usage (record w { db = db }) user_id storage_mb now
      ≡ current_usage w user_id storage_mb now
unfolding current_usage
usage-tables w db user_id now = refl

usage-consume :
    (s : Settings) (now user_id : ℕ) (resource : QuotaResource) (amount : ℕ) (w : World)
    → 0 < s.quota_counter_ttl_seconds
    → is_counted resource ≡ true
    → current_usage
        (record w { counters = consume s now user_id resource amount w.counters })
        user_id
        resource
        now
      ≡ current_usage w user_id resource now + amount
unfolding current_usage
usage-consume s now user_id concurrent_jobs amount w pos h = cc
usage-consume s now user_id live_endpoints amount w pos h = cc
usage-consume s now user_id resource amount w pos h =
    read-consume s now user_id resource amount w.counters pos

usage-consume_other :
    (s : Settings) (now user_id other later : ℕ) (resource : QuotaResource) (amount : ℕ) (w : World)
    → (user_id ≢ other) ⊎ ((is_daily resource ≡ true) × (now / 86400 ≢ later / 86400))
    → current_usage
        (record w { counters = consume s now user_id resource amount w.counters })
        other
        resource
        later
      ≡ current_usage w other resource later
unfolding current_usage
usage-consume_other s now user_id other later concurrent_jobs amount w h = refl
usage-consume_other s now user_id other later live_endpoints amount w h = refl
usage-consume_other s now user_id other later resource amount w h =
    read-consume_other s now user_id resource amount w.counters
      (quota_counter_key other resource later) later (keys_apart user_id other resource now later h)

pub usage-release :
    (now : ℕ) (user : User) (resource : QuotaResource) (amount : ℕ) (w : World)
    → is_counted resource ≡ true
    → 1 ≤ amount
    → current_usage
        (record w { counters = (release now user resource amount w.counters).1 })
        user.id
        resource
        now
      ≡ current_usage w user.id resource now - amount
unfolding current_usage
usage-release now user concurrent_jobs amount w h pos = cc
usage-release now user live_endpoints amount w h pos = cc
usage-release now user jobs_per_day amount w h pos =
    read-release now user _ amount w.counters refl pos
usage-release now user storage_mb amount w h pos =
    read-release now user _ amount w.counters refl pos
usage-release now user instances amount w h pos = read-release now user _ amount w.counters refl pos
usage-release now user llm_tokens_per_day amount w h pos =
    read-release now user _ amount w.counters refl pos

module _ (s : Settings) (now : ℕ) (user : User) (resource : QuotaResource) (amount : ℕ)
    (w : World) where
  -- An `enforce` that succeeds raises the usage of a resource that is counted in Redis by the amount,
  -- and leaves the usage of the others to the rows that are counted, if counters live for a while.
  pub enforce-usage :
      0 < s.quota_counter_ttl_seconds
      → (enforce s now user resource amount w).0 ≡ ok tt
      → current_usage (enforce s now user resource amount w).1 user.id resource now
        ≡ current_usage w user.id resource now + (if is_counted resource then amount else 0)
  enforce-usage pos h =
      let w' : World = record w { db = (get_or_create_quota s user w.db).1 } in
      let e = usage-get_or_create s user w user.id resource now in
      rw (enforce-world s now user resource amount w h) (elim (Bool-cases (is_counted resource)) [
        | inl counted ↦ rw counted (
            usage-consume s now user.id resource amount w' pos counted
            ∙ ap (λ (n : ℕ). n + amount) e)
        | inr rows ↦ rw rows (e ∙ omega arith)
      ])

  -- An `enforce` that succeeds does not change what any other user has used, nor what the user has
  -- used of a daily resource on another day.
  pub enforce-others :
      (other later : ℕ)
      → (user.id ≢ other) ⊎ ((is_daily resource ≡ true) × (now / 86400 ≢ later / 86400))
      → (enforce s now user resource amount w).0 ≡ ok tt
      → current_usage (enforce s now user resource amount w).1 other resource later
        ≡ current_usage w other resource later
  enforce-others other later apart h =
      let w' : World = record w { db = (get_or_create_quota s user w.db).1 } in
      let e = usage-get_or_create s user w other resource later in
      rw (enforce-world s now user resource amount w h) (elim (Bool-cases (is_counted resource)) [
        | inl counted ↦
            rw counted (usage-consume_other s now user.id other later resource amount w' apart ∙ e)
        | inr rows ↦ rw rows e
      ])

  -- Releasing what was just enforced gives back the usage of a resource that is counted in Redis.
  pub release-enforce :
      0 < s.quota_counter_ttl_seconds
      → is_counted resource ≡ true
      → (enforce s now user resource amount w).0 ≡ ok tt
      → let w' = (enforce s now user resource amount w).1 in
        current_usage
          (record w' { counters = (release now user resource amount w'.counters).1 })
          user.id
          resource
          now
        ≡ current_usage w user.id resource now
  release-enforce pos counted h =
      let w' = (enforce s now user resource amount w).1 in
      let used = enforce-usage pos h in
      let plus : (if is_counted resource then amount else 0) ≡ amount = rw counted in
      let fits = (enforce-ok s now user resource amount w).0 h in
      omega (arith, usage-release now user resource amount w' counted fits.0)

-- The first megabytes that a user stores are forgotten when the counter expires, although they are
-- still stored: from a missing counter, an `enforce` of storage that succeeds is not seen any more
-- once the time to live has passed.
pub storage_forgotten :
    (s : Settings) (now later : ℕ) (user : User) (amount : ℕ) (w : World)
    → w.counters (quota_counter_key user.id storage_mb now) ≡ none
    → (enforce s now user storage_mb amount w).0 ≡ ok tt
    → now + s.quota_counter_ttl_seconds ≤ later
    → current_usage (enforce s now user storage_mb amount w).1 user.id storage_mb later ≡ 0
unfolding current_usage read_redis_counter consume quota_counter_key
storage_forgotten s now later user amount w fresh h passed =
    rw (enforce-world s now user storage_mb amount w h) (
      rw (key_beq_refl (quota_counter_key user.id storage_mb now), fresh)
        (shown_first-expired (now + s.quota_counter_ttl_seconds) later amount false passed))

-- `enforce` changes neither the jobs nor any other table but that of the quotas.
pub enforce-jobs :
    (s : Settings) (now : ℕ) (user : User) (resource : QuotaResource) (amount : ℕ) (w : World)
    → ((enforce s now user resource amount w).1.db.jobs ≡ w.db.jobs)
      × ((enforce s now user resource amount w).1.db.models ≡ w.db.models)
      × ((enforce s now user resource amount w).1.db.endpoints ≡ w.db.endpoints)
unfolding enforce get_or_create_quota
enforce-jobs s now user resource amount w = ground arith
