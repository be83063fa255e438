-- ===== src/Http.antt =====
-- How a handler ends: with a value, or with an exception that the framework turns into a response.
-- What was committed before an exception stays, so the state comes back beside the result.
use perzforge.Prelude.{ℕ, String, ◌≡◌, ◌⊎◌, inl, inr, refl}

pub data Error : Type 0 where
  -- HTTPException(status_code, detail)
  http : ℕ → String → Error
  -- QuotaExceededError(quota, limit, current), which main.py answers with 429
  quota_exceeded : String → ℕ → ℕ → Error
  -- ValueError
  value_error : String → Error
  -- a violated constraint of the database
  integrity_error : Error
  -- ServingError(message)
  serving_error : String → Error
  -- any other exception that a handler does not name, by its text
  exception : String → Error

pub data Result (A : Type 0) : Type 0 where
  ok : A → Result A
  err : Error → Result A

infixl 5 ◌>>=◌
abbrev pub ◌>>=◌ : {A B : Type 0} → Result A → (A → Result B) → Result B
ok a >>= f = f a
err e >>= f = err e

abbrev pub Action : Type 0 → Type 0 → Type 0
Action W A = W → Result A × W

-- `await m`, then the rest of the handler, unless `m` raised.
abbrev pub then_run : {W A B : Type 0} → Result A × W → (A → W → Result B × W) → Result B × W
then_run (ok a, w) f = f a w
then_run (err e, w) f = (err e, w)

pub Result-cases : (r : Result (Unit {0})) → ((e : Error) × (r ≡ err e)) ⊎ (r ≡ ok tt)
Result-cases (ok x) = inr refl
Result-cases (err e) = inl (e, refl)

-- What holds of `m` whichever way it ends, and what follows from it for the rest.
pub then_run-Post :
    {W A B : Type 0} (Q : Result A × W → Type 0) (P : Result B × W → Type 0) (m : Result A × W)
    (f : A → W → Result B × W)
    → Q m
    → ((e : Error) (w : W) → Q (err e, w) → P (err e, w))
    → ((a : A) (w : W) → Q (ok a, w) → P (f a w))
    → P (then_run m f)
then_run-Post Q P (ok a, w) f q bad good = good a w q
then_run-Post Q P (err e, w) f q bad good = bad e w q

-- The same for a test that leaves the state alone.
pub then_run-test :
    {W A B : Type 0} (P : Result B × W → Type 0) (r : Result A) (w : W) (f : A → W → Result B × W)
    → ((e : Error) → P (err e, w))
    → ((a : A) → P (f a w))
    → P (then_run (r, w) f)
then_run-test P (ok a) w f bad good = good a
then_run-test P (err e) w f bad good = bad e
