-- ===== src/RateLimit/Bucket/Expiry.antt =====
-- The key of a bucket, which expires in Redis when PEXPIRE says.
use perzforge.Prelude.{
  ℕ, ◌+◌, ◌*◌, ◌≤◌, ◌<◌, ◌≡◌, refl, sym, ap, ◌∙◌, Option, none, some, List, [], ◌∷◌, arith, leb,
  if◌then◌else◌,
}
use perzforge.RateLimit.Bucket.{
  Params, Bucket, Reply, unit, capacity_units, cost_units, elapsed_ms, load, refill, finish, ttl_ms,
  run_script,
}
use perzforge.RateLimit.Bucket.Arith.{refill_full, take_cost_sum, ttl_covers, le-elapsed_mul}
use perzforge.RateLimit.Bucket.Admission.{run_script_sum}

-- The key as Redis holds it: the hash, and the millisecond at which it goes.
pub record Key : Type 0 where
  pub bucket : Bucket
  pub expires_at : ℕ

-- What HMGET finds.
unfoldable pub unexpired : ℕ → Option Key → Option Bucket
unexpired now_ms none = none
unexpired now_ms (some k) = if leb k.expires_at now_ms then none else some k.bucket

-- EVALSHA with the key's lifetime: HMGET, HSET and PEXPIRE.
unfoldable pub eval_key : Params → ℕ → Option Key → Reply × Key
eval_key p now_ms stored =
    let (reply, b) = run_script p now_ms (unexpired now_ms stored) in
    (reply, record { bucket = b; expires_at = now_ms + ttl_ms p })

-- The replies to calls at the given times.
pub replies_expiring : Params → Option Key → List ℕ → List Reply
unfolding eval_key
replies_expiring p stored [] = []
replies_expiring p stored (now_ms ∷ times) =
    let (reply, key) = eval_key p now_ms stored in reply ∷ replies_expiring p (some key) times

-- The same with a key that is never lost.
pub replies_kept : Params → Option Bucket → List ℕ → List Reply
replies_kept p stored [] = []
replies_kept p stored (now_ms ∷ times) =
    let (reply, b) = run_script p now_ms stored in reply ∷ replies_kept p (some b) times

at_capacity : Params → ℕ → Bucket
at_capacity p now_ms = record { tokens = capacity_units p; ts = now_ms }

refill-at_capacity :
    (p : Params) (now_ms : ℕ) (b : Bucket)
    → capacity_units p ≤ b.tokens + elapsed_ms b.ts now_ms * p.rate_num
    → refill p now_ms b ≡ at_capacity p now_ms
unfolding refill at_capacity
refill-at_capacity p now_ms b h = ground (arith, refill_full p now_ms b h)

capacity-le-ttl : (p : Params) → 0 < p.rate_num → capacity_units p ≤ ttl_ms p * p.rate_num
unfolding capacity_units unit
capacity-le-ttl p pos = omega (arith, ttl_covers p pos)

-- A key that has lived its time stands for a full bucket, as a missing key does.
lost_same :
    (p : Params) (b : Bucket) (now_ms : ℕ)
    → 0 < p.rate_num
    → b.ts + ttl_ms p ≤ now_ms
    → refill p now_ms (load p now_ms (some b)) ≡ refill p now_ms (load p now_ms none)
unfolding load
lost_same p b now_ms pos h =
    refill-at_capacity p now_ms b
      (omega (arith, capacity-le-ttl p pos, le-elapsed_mul b.ts now_ms (ttl_ms p) p.rate_num h))
    ∙ sym (refill-at_capacity p now_ms (load p now_ms none) (omega arith))

run_lost :
    (p : Params) (b : Bucket) (now_ms : ℕ)
    → 0 < p.rate_num
    → b.ts + ttl_ms p ≤ now_ms
    → run_script p now_ms none ≡ run_script p now_ms (some b)
unfolding run_script
run_lost p b now_ms pos h = sym (ap (finish p now_ms) (lost_same p b now_ms pos h))

-- What EVALSHA sees of a key makes no difference to the run.
run_unexpired :
    (p : Params) (k : Key) (now_ms : ℕ)
    → 0 < p.rate_num
    → k.expires_at ≡ k.bucket.ts + ttl_ms p
    → run_script p now_ms (unexpired now_ms (some k)) ≡ run_script p now_ms (some k.bucket)
unfolding unexpired
run_unexpired p k now_ms pos e = ground (arith, run_lost p k.bucket now_ms pos)

ts-run_script :
    (p : Params) (now_ms : ℕ) (o : Option Bucket) → (run_script p now_ms o).1.ts ≡ now_ms
unfolding run_script
ts-run_script p now_ms o = refl

replies_same :
    (p : Params) (k : Key) (times : List ℕ)
    → 0 < p.rate_num
    → k.expires_at ≡ k.bucket.ts + ttl_ms p
    → replies_expiring p (some k) times ≡ replies_kept p (some k.bucket) times
unfolding replies_expiring replies_kept
replies_same p k [] pos e = refl
replies_same p k (now_ms ∷ times) pos e = rw (run_unexpired p k now_ms pos e) (
    ap (λ l. (run_script p now_ms (some k.bucket)).0 ∷ l)
      (replies_same p
        (record {
          bucket = (run_script p now_ms (some k.bucket)).1;
          expires_at = now_ms + ttl_ms p;
        })
        times pos (omega (arith, ts-run_script p now_ms (some k.bucket)))))

-- With a positive rate, callers get the same replies from a bucket whose key expires as PEXPIRE
-- says and from one that is kept for ever, at any times, from the first call on.
pub expiry_unseen :
    (p : Params) (times : List ℕ)
    → 0 < p.rate_num
    → replies_expiring p none times ≡ replies_kept p none times
unfolding replies_expiring replies_kept unexpired
expiry_unseen p [] pos = refl
expiry_unseen p (now_ms ∷ times) pos =
    ap (λ l. (run_script p now_ms none).0 ∷ l)
      (replies_same p
        (record { bucket = (run_script p now_ms none).1; expires_at = now_ms + ttl_ms p }) times pos
        (omega (arith, ts-run_script p now_ms none)))

-- The tokens that a key stands for at its own time.
abbrev pub level : Params → Option Key → ℕ
level p none = capacity_units p
level p (some k) = k.bucket.tokens

-- A key as the script leaves it at a time.
abbrev pub IsWrittenAt : Params → ℕ → Option Key → Type 0
IsWrittenAt p start none = Unit
IsWrittenAt p start (some k) = (k.bucket.ts ≡ start) × (k.expires_at ≡ k.bucket.ts + ttl_ms p)

pub eval_key-IsWrittenAt :
    (p : Params) (now_ms : ℕ) (o : Option Key) → IsWrittenAt p now_ms (some (eval_key p now_ms o).1)
unfolding eval_key
eval_key-IsWrittenAt p now_ms o =
    let e = ts-run_script p now_ms (unexpired now_ms o) in (e, omega arith)

unexpired-none : (now_ms : ℕ) → unexpired now_ms none ≡ none
unfolding unexpired
unexpired-none now_ms = refl

run_none_sum :
    (p : Params) (start now_ms : ℕ)
    → (run_script p now_ms none).1.tokens
        + (if (run_script p now_ms none).0.allowed then cost_units p else 0)
      ≤ capacity_units p + elapsed_ms start now_ms * p.rate_num
unfolding run_script
run_none_sum p start now_ms =
    omega (arith, take_cost_sum p (refill p now_ms (load p now_ms none)).tokens)

-- One call takes its cost from the level and the time passed.
pub eval_key_sum :
    (p : Params) (start now_ms : ℕ) (o : Option Key)
    → 0 < p.rate_num
    → IsWrittenAt p start o
    → (eval_key p now_ms o).1.bucket.tokens
        + (if (eval_key p now_ms o).0.allowed then cost_units p else 0)
      ≤ level p o + elapsed_ms start now_ms * p.rate_num
unfolding eval_key
eval_key_sum p start now_ms none pos h = rw unexpired-none (run_none_sum p start now_ms)
eval_key_sum p start now_ms (some k) pos h =
    rw (run_unexpired p k now_ms pos h.1, ← h.0) (run_script_sum p now_ms k.bucket)
