-- ===== src/Quota/Counting.antt =====
-- What the Redis counters of quotas hold after INCRBY, DECRBY and the passing of time.
use perzforge.Prelude.{
  ℕ, ◌+◌, ◌-◌, ◌/◌, ◌⊎◌, ◌≤◌, ◌<◌, ◌≡◌, ◌≢◌, refl, Bool, true, false, ◌||◌, Option, none, some, ltb,
  arith,
}
use perzforge.Settings.{Settings}
use perzforge.Schema.{User}
use perzforge.Quota.{
  QuotaResource, is_daily, is_absolute, CounterKey, key_beq, day_beq, Counter, Counters, unexpired,
  incremented, decremented, quota_counter_key, day_key, read_redis_counter, shown, expiring,
  consume, release,
}

pub day_beq_refl : (d : Option ℕ) → day_beq d d ≡ true
day_beq_refl none = refl
day_beq_refl (some d) = ground arith

pub key_beq_refl : (k : CounterKey) → key_beq k k ≡ true
key_beq_refl k = ground (arith, day_beq_refl k.day)

shown-expiring :
    (now until amount : ℕ) (daily : Bool) (o : Option Counter)
    → now < until
    → shown now (some (expiring daily amount until (incremented (unexpired now o) amount)))
      ≡ shown now o + amount
shown-expiring now until amount daily none h = ground arith
shown-expiring now until amount daily (some c) h = ground arith

shown-decremented :
    (now amount : ℕ) (o : Option Counter)
    → shown now (some (decremented (unexpired now o) amount)) ≡ shown now o - amount
shown-decremented now amount none = ground arith
shown-decremented now amount (some c) = ground arith

module _ (s : Settings) (now user_id : ℕ) (resource : QuotaResource) (amount : ℕ)
    (counters : Counters) where
  -- A counter that was consumed from shows the amount more, at once.
  pub read-consume :
      0 < s.quota_counter_ttl_seconds
      → read_redis_counter
          (consume s now user_id resource amount counters)
          (quota_counter_key user_id resource now)
          now
        ≡ read_redis_counter counters (quota_counter_key user_id resource now) now + amount
  unfolding consume read_redis_counter
  read-consume pos =
      let key = quota_counter_key user_id resource now in
      rw (key_beq_refl key) (
        shown-expiring now (now + s.quota_counter_ttl_seconds) amount (is_daily resource)
          (counters key) (omega arith))

  -- Any other counter shows what it showed, at any time.
  pub read-consume_other :
      (other : CounterKey) (later : ℕ)
      → key_beq (quota_counter_key user_id resource now) other ≡ false
      → read_redis_counter (consume s now user_id resource amount counters) other later
        ≡ read_redis_counter counters other later
  unfolding consume read_redis_counter
  read-consume_other other later h = rw h

-- A counter that was released from shows the amount less, and not less than nothing.
pub read-release :
    (now : ℕ) (user : User) (resource : QuotaResource) (amount : ℕ) (counters : Counters)
    → (is_absolute resource || is_daily resource) ≡ true
    → 1 ≤ amount
    → read_redis_counter
        (release now user resource amount counters).1
        (quota_counter_key user.id resource now)
        now
      ≡ read_redis_counter counters (quota_counter_key user.id resource now) now - amount
unfolding release read_redis_counter
read-release now user resource amount counters counted h =
    let key = quota_counter_key user.id resource now in
    let plenty : ltb amount 1 ≡ false = ground arith in
    rw (counted, plenty, key_beq_refl key) (shown-decremented now amount (counters key))

-- The first use of a counter is forgotten when its time to live has passed.
pub shown_first-expired :
    (until later amount : ℕ) (daily : Bool)
    → until ≤ later
    → shown later (some (expiring daily amount until (incremented none amount))) ≡ 0
shown_first-expired until later amount daily h = ground arith

-- The keys of two users, or of two days of a daily resource, are different.
pub keys_apart :
    (user_id other : ℕ) (resource : QuotaResource) (now later : ℕ)
    → (user_id ≢ other) ⊎ ((is_daily resource ≡ true) × (now / 86400 ≢ later / 86400))
    → key_beq (quota_counter_key user_id resource now) (quota_counter_key other resource later)
      ≡ false
unfolding quota_counter_key day_key
keys_apart user_id other resource now later h = ground arith
