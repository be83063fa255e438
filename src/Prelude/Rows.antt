-- ===== src/Prelude/Rows.antt =====
-- Laws of the operations on tables: rows found, counted and updated.
use Prim.Native.Nat.{ℕ, ◌+◌}
use mathlib.Core.Path.{◌≡◌, refl, ap}
use mathlib.Core.Logic.{◌≢◌}
use mathlib.Core.Bool.{Bool, true, false}
use mathlib.Core.Option
use mathlib.Core.Option.{Option, none, some}
use mathlib.Core.List.{List, [], ◌∷◌, ◌++◌, map}
use native.Mathlib.Omega.{arith}
use perzforge.Prelude.Tests.{◌==◌, if◌then◌else◌}
use perzforge.Prelude.Lists.{find?, count, update_where, All}

module _ {A : Type 0} where
  pub count-append : (p : A → Bool) (xs ys : List A) → count p (xs ++ ys) ≡ count p xs + count p ys
  count-append p [] ys = omega arith
  count-append p (x ∷ xs) ys = omega (arith, count-append p xs ys)

  pub update_where-append :
      (p : A → Bool) (f : A → A) (xs ys : List A)
      → update_where p f (xs ++ ys) ≡ update_where p f xs ++ update_where p f ys
  update_where-append p f [] ys = refl
  update_where-append p f (x ∷ xs) ys =
      ap (λ l. (if p x then f x else x) ∷ l) (update_where-append p f xs ys)

  pub find?-append_none :
      (p : A → Bool) (xs ys : List A) → find? p xs ≡ none → find? p (xs ++ ys) ≡ find? p ys
  find?-append_none p [] ys h = refl
  find?-append_none p (x ∷ xs) ys h = ground (arith, find?-append_none p xs ys)

  pub find?-append_some :
      (p : A → Bool) (xs ys : List A) (x : A) → find? p xs ≡ some x → find? p (xs ++ ys) ≡ some x
  find?-append_some p [] ys x h = ground arith
  find?-append_some p (y ∷ xs) ys x h = ground (arith, find?-append_some p xs ys x)

  pub find?-holds : (p : A → Bool) (xs : List A) (x : A) → find? p xs ≡ some x → p x ≡ true
  find?-holds p [] x h = ground arith
  find?-holds p (y ∷ xs) x h = ground (arith, find?-holds p xs x)

  -- Where no row is found, none is updated.
  pub update_where-fresh :
      (p : A → Bool) (f : A → A) (xs : List A) → find? p xs ≡ none → update_where p f xs ≡ xs
  update_where-fresh p f [] h = refl
  update_where-fresh p f (x ∷ xs) h = ground (arith, update_where-fresh p f xs)

  pub All-update_where :
      (P : A → Type 0) (p : A → Bool) (f : A → A) (xs : List A)
      → ((x : A) → p x ≡ true → P x → P (f x))
      → All P xs
      → All P (update_where p f xs)
  All-update_where P p f [] keep h = tt
  All-update_where P p f (x ∷ xs) keep h = (updated (p x) refl, All-update_where P p f xs keep h.1)
    where
      updated : (b : Bool) → p x ≡ b → P (if b then f x else x)
      updated true e = keep x e h.0
      updated false e = h.0

  pub All-append : (P : A → Type 0) (xs ys : List A) → All P xs → All P ys → All P (xs ++ ys)
  All-append P [] ys hx hy = hy
  All-append P (x ∷ xs) ys hx hy = (hx.0, All-append P xs ys hx.1 hy)

-- Rows with a number for a key, and an update that keeps it.
module _ {A : Type 0} (id : A → ℕ) (f : A → A) (keeps : (x : A) → id (f x) ≡ id x) where
  pub find?-update_self :
      (k : ℕ) (xs : List A)
      → find? (λ x. id x == k) (update_where (λ x. id x == k) f xs)
        ≡ Option.map f (find? (λ x. id x == k) xs)
  find?-update_self k [] = refl
  find?-update_self k (x ∷ xs) = ground (arith, keeps x, find?-update_self k xs)

  pub find?-update_ne :
      (k j : ℕ) (xs : List A)
      → k ≢ j
      → find? (λ x. id x == j) (update_where (λ x. id x == k) f xs) ≡ find? (λ x. id x == j) xs
  find?-update_ne k j [] h = refl
  find?-update_ne k j (x ∷ xs) h = ground (arith, keeps x, find?-update_ne k j xs h)

  pub find?-map :
      (k : ℕ) (xs : List A)
      → find? (λ x. id x == k) (map f xs) ≡ Option.map f (find? (λ x. id x == k) xs)
  find?-map k [] = refl
  find?-map k (x ∷ xs) = ground (arith, keeps x, find?-map k xs)
