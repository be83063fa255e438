-- ===== src/Worker/Lock.antt =====
-- worker/lock.py: the lock of the agent, a key of Redis that holds its token and goes at a time.
pub mod Exclusion
use perzforge.Prelude.{
  ℕ, ◌+◌, Bool, true, false, Option, none, some, String, str_eq, leb, if◌then◌else◌,
}
use perzforge.Settings.{Settings}

-- The key: the token in it, and the time at which it goes.
abbrev pub LockKey : Type 0
LockKey = Option (String × ℕ)

-- GET
abbrev pub holder : ℕ → LockKey → Option String
holder now none = none
holder now (some (token, until)) = if leb until now then none else some token

abbrev pub is_held_by : String → ℕ → LockKey → Bool
is_held_by token now key = elim (holder now key) [
  | none ↦ false
  | some current ↦ str_eq current token
]

-- SET NX EX
unfoldable pub acquire : Settings → String → ℕ → LockKey → Bool × LockKey
acquire s token now key = elim (holder now key) [
  | none ↦ (true, some (token, now + s.worker_lock_ttl_seconds))
  | some current ↦ (false, key)
]

-- EXPIRE, on whatever key is there.
abbrev pub expire : Settings → ℕ → LockKey → LockKey
expire s now none = none
expire s now (some (token, until)) =
    if leb until now then none else some (token, now + s.worker_lock_ttl_seconds)

-- GET at one time, which sees one key, and then EXPIRE at another, when the key may be another one.
unfoldable pub refresh : Settings → String → ℕ → LockKey → ℕ → LockKey → Bool × LockKey
refresh s token got_at seen now key =
    if is_held_by token got_at seen then (true, expire s now key) else (false, key)

-- GET, and then DELETE of whatever key is there.
unfoldable pub release_lock : String → ℕ → LockKey → LockKey → LockKey
release_lock token got_at seen key = if is_held_by token got_at seen then none else key
