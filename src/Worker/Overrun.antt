-- ===== src/Worker/Overrun.antt =====
-- The lock of worker/lock.py and the loop of worker/agent.py when a job takes long: `refresh` is only
-- called between two jobs.
use perzforge.Prelude.{
  ℕ, ◌+◌, ◌≤◌, ◌≡◌, refl, true, false, none, some, String, List, [], ◌∷◌, arith, Bool-cases, inl,
  inr, Bool, leb, str_eq, eq_iff,
}
use perzforge.Settings.{Settings}
use perzforge.Storage.{Printing}
use perzforge.Worker.{Machine, Outside}
use perzforge.Worker.Agent.{Turn, process_item, run_turns}
use perzforge.Worker.Lock.{LockKey, acquire, refresh}

-- A refresh with no other call in between.
abbrev refresh_alone : Settings → String → ℕ → LockKey → Bool × LockKey
refresh_alone s token now key = refresh s token now key now key

refresh-late :
    (s : Settings) (token : String) (until now : ℕ)
    → until ≤ now
    → refresh_alone s token now (some (token, until)) ≡ (false, some (token, until))
unfolding refresh
refresh-late s token until now late = ground arith

own :
    (s : Settings) (token other : String) (until now : ℕ)
    → leb until now ≡ false
    → str_eq other token ≡ true
    → (refresh_alone s token now (some (other, until))).1
      ≡ some (token, now + s.worker_lock_ttl_seconds)
unfolding refresh
own s token other until now early same =
    let t : str_eq token token ≡ true = (eq_iff token token).1 refl in
    rw ((eq_iff other token).0 same) (ground arith)

refresh-true :
    (s : Settings) (token : String) (now : ℕ) (key : LockKey)
    → (refresh_alone s token now key).0 ≡ true
    → (refresh_alone s token now key).1 ≡ some (token, now + s.worker_lock_ttl_seconds)
unfolding refresh
refresh-true s token now none h = absurd (ground arith)
refresh-true s token now (some (other, until)) h = elim (Bool-cases (leb until now)) [
  | inl late ↦ absurd (over late h)
  | inr early ↦ elim (Bool-cases (str_eq other token)) [
    | inl same ↦ own s token other until now early same
    | inr differs ↦ absurd (foreign early differs h)
  ]
]
  where
    over : leb until now ≡ true → (refresh_alone s token now (some (other, until))).0 ≡ true → ⊥
    over late h = ground arith

    foreign :
        leb until now ≡ false
        → str_eq other token ≡ false
        → (refresh_alone s token now (some (other, until))).0 ≡ true
        → ⊥
    foreign early differs h = ground arith

-- A turn after which the next refresh comes later than the time to live ends the agent: of the
-- turns that follow none is carried out, though no other agent took the lock.
pub run_turns-overrun :
    (s : Settings) (str : Printing) (o : Outside) (token worker_hostname : String)
    (turn next : Turn) (turns : List Turn) (key : LockKey) (m : Machine)
    → turn.refreshed_at + s.worker_lock_ttl_seconds ≤ next.refreshed_at
    → (run_turns s str o token worker_hostname (turn ∷ next ∷ turns) (key, m)).1
      ≡ (run_turns s str o token worker_hostname (turn ∷ []) (key, m)).1
unfolding run_turns
run_turns-overrun s str o token worker_hostname turn next turns key m late =
    let m' = process_item s str o turn turn.item worker_hostname m in
    elim (Bool-cases (refresh_alone s token turn.refreshed_at key).0) [
      | inr lost ↦ rw lost refl
      | inl held ↦ elim (Bool-cases m'.crashed) [
        | inl crashed ↦ rw (held, crashed) refl
        | inr alive ↦
            rw
              (
                held,
                alive,
                refresh-true s token turn.refreshed_at key held,
                refresh-late s token (turn.refreshed_at + s.worker_lock_ttl_seconds)
                    next.refreshed_at late,
              )
              refl
      ]
    ]

-- As soon as the time to live has passed since the last refresh, another agent gets the lock.
pub acquire-overrun :
    (s : Settings) (token other : String) (refreshed_at now : ℕ) (key : LockKey)
    → (refresh s token refreshed_at key refreshed_at key).0 ≡ true
    → refreshed_at + s.worker_lock_ttl_seconds ≤ now
    → (acquire s other now (refresh s token refreshed_at key refreshed_at key).1).0 ≡ true
unfolding acquire
acquire-overrun s token other refreshed_at now key held late =
    rw (refresh-true s token refreshed_at key held) (ground arith)
