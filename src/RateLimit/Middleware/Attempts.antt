-- ===== src/RateLimit/Middleware/Attempts.antt =====
-- How many credential requests from one address get past the middleware.
use native.Mathlib.Nat.{add-mul}
use perzforge.Prelude.{
  ℕ, ◌+◌, ◌*◌, ◌≤◌, ◌<◌, ◌≡◌, ◌≢◌, sym, ap, ap₂, ◌∙◌, Bool, true, false, ◌&&◌, Option, some, List,
  [], ◌∷◌, Text, codes, text_beq, text_beq-eq, text_beq_refl, count, arith, Bool-cases, inl, inr,
  if◌then◌else◌,
}
use perzforge.Settings.{Settings}
use perzforge.RateLimit.Bucket.{Params, script_fails, cost_units, elapsed_ms}
use perzforge.RateLimit.Bucket.Expiry.{
  eval_key, level, IsWrittenAt, eval_key-IsWrittenAt, eval_key_sum,
}
use perzforge.RateLimit.Bucket.Admission.{forward_ms}
use perzforge.RateLimit.Policy.{RateLimitPolicy, auth_policy}
use perzforge.RateLimit.Policy.Routes.{forced-auth, named-auth, name-HasNoColon, forced-not-exempt}
use perzforge.RateLimit.Identity.{client_ip, resolve_identity, by_ip, bucket_key}
use perzforge.RateLimit.Identity.Separation.{bucket_key-injective, by_ip-injective}
use perzforge.RateLimit.Middleware.{
  RateStore, Request, Response, params_of, result_of, set_key, consume_token, policy_of,
  identity_of, check_rate_limit, rate_limit_middleware,
}

-- A request with the time at which it is checked.
pub record Timed : Type 0 where
  pub request : Request
  pub now_ms : ℕ

-- The handler of the application, seen from outside: it notes each request that reaches it.
abbrev pub note : Request → List Request → Response (Unit {0}) × List Request
note req log = (record { status = 200; headers = []; body = tt }, req ∷ log)

module _ (s : Settings) (decode : Text → Option (Option Text)) where
  -- The requests one after the other, with Redis connected: the store, and what was handled.
  pub serve : List Timed → RateStore → List Request → RateStore × List Request
  serve [] store log = (store, log)
  serve (t ∷ ts) store log =
      let (response, store', log') =
        rate_limit_middleware s decode tt note true t.request t.now_ms store log in
      serve ts store' log'

  -- A login or a refresh from one address.
  unfoldable pub is_attempt : Text → Request → Bool
  is_attempt ip req =
      (policy_of s decode req).force_ip && text_beq (client_ip req.headers req.client_host) ip

  abbrev pub bucket_of : Request → Text
  bucket_of req = bucket_key (policy_of s decode req).name (identity_of s decode req)

-- The bucket of the attempts from one address.
abbrev pub attempts_key : Text → Text
attempts_key ip = bucket_key (codes "auth") (by_ip ip)

and_true : {a b : Bool} → (a && b) ≡ true → (a ≡ true) × (b ≡ true)
and_true {a} {b} h = ground arith

module _ (s : Settings) (decode : Text → Option (Option Text)) (ip : Text) (req : Request) where
  attempt_policy : is_attempt s decode ip req ≡ true → policy_of s decode req ≡ auth_policy s
  unfolding is_attempt policy_of
  attempt_policy h = forced-auth s req.method req.path (and_true h).0

  identity_forced :
      (policy_of s decode req).force_ip ≡ true
      → identity_of s decode req ≡ by_ip (client_ip req.headers req.client_host)
  unfolding identity_of resolve_identity
  identity_forced h = rw h

  attempt_bucket : is_attempt s decode ip req ≡ true → bucket_of s decode req ≡ attempts_key ip
  unfolding is_attempt auth_policy
  attempt_bucket h =
      ap₂ bucket_key (ap (λ (p : RateLimitPolicy). p.name) (attempt_policy h))
        (identity_forced (and_true h).0 ∙ ap by_ip (text_beq-eq _ _ (and_true h).1))

  other_bucket : is_attempt s decode ip req ≡ false → bucket_of s decode req ≢ attempts_key ip
  unfolding is_attempt policy_of
  other_bucket h e =
      let (name, identity) =
        bucket_key-injective (policy_of s decode req).name (codes "auth") (identity_of s decode req)
          (by_ip ip) (name-HasNoColon s req.method req.path) (ground arith) e in
      let forced = named-auth s req.method req.path name in
      let same = by_ip-injective _ _ (sym (identity_forced forced) ∙ identity) in
      let t : ((policy_of s decode req).force_ip
            && text_beq (client_ip req.headers req.client_host) ip)
          ≡ true =
        rw (forced, same) (text_beq_refl ip) in
      cc

  attempt_identity : is_attempt s decode ip req ≡ true → identity_of s decode req ≡ by_ip ip
  unfolding is_attempt
  attempt_identity h = identity_forced (and_true h).0 ∙ ap by_ip (text_beq-eq _ _ (and_true h).1)

  attempt_check :
      (now_ms : ℕ) (store : RateStore)
      → is_attempt s decode ip req ≡ true
      → check_rate_limit s decode true req now_ms store
        ≡ consume_token (auth_policy s) (by_ip ip) now_ms store
  unfolding check_rate_limit is_attempt policy_of
  attempt_check now_ms store h =
      rw (
        forced-not-exempt s req.method req.path (and_true h).0,
        attempt_policy h,
        attempt_identity h,
      )

  -- What the middleware does with an attempt while Redis answers.
  attempt_step :
      (now_ms : ℕ) (store : RateStore) (log : List Request)
      → is_attempt s decode ip req ≡ true
      → script_fails (params_of (auth_policy s)) ≡ false
      → store.up ≡ true
      → let (reply, key) =
          eval_key (params_of (auth_policy s)) now_ms (store.keys (attempts_key ip)) in
        let (response, store', log') =
          rate_limit_middleware s decode tt note true req now_ms store log in
        (store'.up ≡ true)
        × (store'.keys (attempts_key ip) ≡ some key)
        × (log' ≡ (if reply.allowed then req ∷ log else log))
  unfolding rate_limit_middleware consume_token result_of set_key auth_policy
  attempt_step now_ms store log h works up =
      rw (attempt_check now_ms store h, up, works) (ground (arith, text_beq_refl (attempts_key ip)))

  -- Any other request leaves the bucket of the attempts as it is.
  other_step :
      (now_ms : ℕ) (store : RateStore) (log : List Request)
      → is_attempt s decode ip req ≡ false
      → store.up ≡ true
      → let (response, store', log') =
          rate_limit_middleware s decode tt note true req now_ms store log in
        (store'.up ≡ true)
        × (store'.keys (attempts_key ip) ≡ store.keys (attempts_key ip))
        × (count (is_attempt s decode ip) log' ≡ count (is_attempt s decode ip) log)
  unfolding rate_limit_middleware check_rate_limit consume_token set_key
  other_step now_ms store log h up =
      ground (arith, other_bucket h, text_beq-eq (bucket_of s decode req) (attempts_key ip))

works_lem : (p : Params) → 0 < p.rate_num → script_fails p ≡ false
unfolding script_fails
works_lem p pos = ground arith

-- What the script is given for the tier of the credentials.
abbrev pub auth_params : Settings → Params
auth_params s = params_of (auth_policy s)

module _ (s : Settings) (decode : Text → Option (Option Text)) (ip : Text) where
  -- The times of the attempts from the address.
  abbrev pub attempt_times : List Timed → List ℕ
  attempt_times [] = []
  attempt_times (t ∷ ts) =
      let rest = attempt_times ts in
      if is_attempt s decode ip t.request then t.now_ms ∷ rest else rest

  abbrev pub attempts : List Request → ℕ
  attempts log = count (is_attempt s decode ip) log

  attempts-cons :
      (req : Request) (log : List Request) (b : Bool)
      → is_attempt s decode ip req ≡ true
      → attempts (if b then req ∷ log else log) * cost_units (auth_params s)
        ≡ attempts log * cost_units (auth_params s) + (if b then cost_units (auth_params s) else 0)
  attempts-cons req log true h =
      rw h (add-mul 1 (attempts log) (cost_units (auth_params s)) ∙ omega arith)
  attempts-cons req log false h = omega arith

  serve_sum :
      (ts : List Timed) (store : RateStore) (log : List Request) (start : ℕ)
      → 0 < (auth_params s).rate_num
      → store.up ≡ true
      → IsWrittenAt (auth_params s) start (store.keys (attempts_key ip))
      → attempts (serve s decode ts store log).1 * cost_units (auth_params s)
        ≤ attempts log * cost_units (auth_params s)
          + level (auth_params s) (store.keys (attempts_key ip))
          + forward_ms start (attempt_times ts) * (auth_params s).rate_num
  unfolding serve
  serve_sum [] store log start pos up fits = omega arith
  serve_sum (t ∷ ts) store log start pos up fits =
      let now_ms = t.now_ms in
      let before = store.keys (attempts_key ip) in
      let store' = (rate_limit_middleware s decode tt note true t.request now_ms store log).1 in
      let log' = (rate_limit_middleware s decode tt note true t.request now_ms store log).2 in
      elim (Bool-cases (is_attempt s decode ip t.request)) [
        | inl attempt ↦
            let (up', key', logged) =
              attempt_step s decode ip t.request now_ms store log attempt
                (works_lem (auth_params s) pos) up in
            let written = eval_key-IsWrittenAt (auth_params s) now_ms before in
            let ih = serve_sum ts store' log' now_ms pos up' (rw key' written) in
            let cost =
              attempts-cons t.request log (eval_key (auth_params s) now_ms before).0.allowed
                attempt in
            let left = ap (level (auth_params s)) key' in
            let handled = ap (λ l. attempts l * cost_units (auth_params s)) logged in
            rw attempt (
              omega (
                arith,
                eval_key_sum (auth_params s) start now_ms before pos fits,
                add-mul (elapsed_ms start now_ms) (forward_ms now_ms (attempt_times ts))
                    (auth_params s).rate_num,
              ))
        | inr other ↦
            let (up', key', logged) = other_step s decode ip t.request now_ms store log other up in
            let ih = serve_sum ts store' log' start pos up' (rw key' fits) in
            let left = ap (level (auth_params s)) key' in
            let handled = ap (λ (n : ℕ). n * cost_units (auth_params s)) logged in
            rw other (omega arith)
      ]

  -- While Redis answers and the auth tier has a positive rate, whatever requests arrive, from any
  -- clients and with any headers: the login and refresh requests from one address that reach the
  -- handler cost at most what the bucket of that address holds at the start and what the forward
  -- movement of the clock between the attempts refills. A missing bucket counts as full.
  pub attempts_bounded :
      (ts : List Timed) (store : RateStore) (start : ℕ)
      → 0 < (auth_params s).rate_num
      → store.up ≡ true
      → IsWrittenAt (auth_params s) start (store.keys (attempts_key ip))
      → attempts (serve s decode ts store []).1 * cost_units (auth_params s)
        ≤ level (auth_params s) (store.keys (attempts_key ip))
          + forward_ms start (attempt_times ts) * (auth_params s).rate_num
  attempts_bounded ts store start pos up fits =
      omega (arith, serve_sum ts store [] start pos up fits)
