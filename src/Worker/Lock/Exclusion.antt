-- ===== src/Worker/Lock/Exclusion.antt =====
-- What the lock of worker/lock.py promises while calls of other agents are under way: a refresh and a
-- release are two commands, and the commands of other agents may come between them.
use perzforge.Prelude.{
  ℕ, ◌<◌, ◌≡◌, Bool, false, not, none, String, List, [], ◌∷◌, str_eq, any, filter, if◌then◌else◌,
}
use perzforge.Settings.{Settings}
use perzforge.Worker.Lock.{LockKey, is_held_by, acquire, expire}

-- A command of another agent: the SET of an acquire, the GET of a refresh or a release, and the
-- EXPIRE or DELETE that follows a GET that found the agent's own token.
pub data Command : Type 0 where
  sets gets expires deletes : Command

pub record Attempt : Type 0 where
  pub token : String
  pub command : Command
  pub at : ℕ

-- The key, and the tokens of the agents whose GET found their own token and whose second command is
-- still to come.
pub record Wire : Type 0 where
  pub key : LockKey
  pub pending : List String

abbrev pub is_pending : String → List String → Bool
is_pending token pending = any (λ t. str_eq t token) pending

abbrev pub settled : String → List String → List String
settled token pending = filter (λ t. not (str_eq t token)) pending

abbrev pub perform_command : Settings → Command → String → ℕ → Wire → Wire
perform_command s sets token now w = record w { key = (acquire s token now w.key).1 }
perform_command s gets token now w =
    if is_held_by token now w.key then record w { pending = token ∷ w.pending } else w
perform_command s expires token now w =
    if is_pending token w.pending
    then record { key = expire s now w.key; pending = settled token w.pending }
    else w
perform_command s deletes token now w =
    if is_pending token w.pending
    then record { key = none; pending = settled token w.pending }
    else w

abbrev pub perform_all : Settings → List Attempt → Wire → Wire
perform_all s [] w = w
perform_all s (a ∷ rest) w = perform_all s rest (perform_command s a.command a.token a.at w)

-- Commands under other tokens, before a time.
abbrev pub AreForeign : String → ℕ → List Attempt → Type 0
AreForeign token until [] = Unit
AreForeign token until (a ∷ rest) =
    ((str_eq token a.token ≡ false) × (a.at < until)) × AreForeign token until rest

-- No second command of another agent is still to come.
abbrev pub HasNoForeign : String → List String → Type 0
HasNoForeign token pending = any (λ t. not (str_eq t token)) pending ≡ false
