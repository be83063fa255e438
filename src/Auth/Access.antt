-- ===== src/Auth/Access.antt =====
-- Who gets past `require_scopes` of api/deps.py.
use perzforge.Prelude.{
  ℕ, ◌≡◌, refl, sym, subst⁻¹, true, false, Option, none, some, List, [], ◌∷◌, Text, find?, all,
  str_eq, Bool-cases, inl, inr,
}
use perzforge.Schema.{User, ApiKey, Db, Scope}
use perzforge.Http.{Result, ok, err}
use perzforge.Jobs.{Principal}
use perzforge.RateLimit.Identity.{is_api_key_token}
use perzforge.Auth.{
  Crypto, has_scope, scopes_of, find_user, is_over, key_principal, of_key, touching,
  authenticate_api_key, of_user, of_user_id, of_payload, authenticate_jwt, no_password_change,
  resolve_principal_from_token, get_current_principal, with_scopes, require_scopes,
}

-- A key in order: not revoked, not over, of the user, and in the table.
abbrev pub IsGoodKey : ℕ → Db → Principal → Option ApiKey → Type 0
IsGoodKey now db principal none = Unit
IsGoodKey now db principal (some key) =
    (key.revoked ≡ false)
    × (is_over now key.expires_at ≡ false)
    × (find_user key.user_id db ≡ some principal.user)

-- A user of the table who is not disabled, with a key in order if there is one.
abbrev pub IsAuthentic : ℕ → Db → Principal → Type 0
IsAuthentic now db principal =
    ((user_id : ℕ) × (find_user user_id db ≡ some principal.user))
    × (principal.user.disabled ≡ false)
    × IsGoodKey now db principal principal.api_key

-- What a result holds, if it is one.
abbrev pub Holds : {A : Type 0} → (A → Type 0) → Result A → Type 0
Holds P (ok a) = P a
Holds P (err e) = Unit

pub Holds-ok : {A : Type 0} (P : A → Type 0) (r : Result A) (a : A) → Holds P r → r ≡ ok a → P a
Holds-ok P r a held h = let held' : Holds P (ok a) = subst⁻¹ (Holds P) (sym h) held in held'

module _ (now : ℕ) (db : Db) where
  of_user-Holds :
      (user_id : ℕ) (u : Option User)
      → find_user user_id db ≡ u
      → Holds (IsAuthentic now db) (of_user u)
  of_user-Holds user_id none there = tt
  of_user-Holds user_id (some user) there = elim (Bool-cases user.disabled) [
    | inl out ↦ rw out tt
    | inr fine ↦ simp fine ((user_id, there), refl, tt)
  ]

  pub of_payload-Holds :
      (c : Crypto) (payload : Option (Option Text))
      → Holds (IsAuthentic now db) (of_payload c db payload)
  of_payload-Holds c none = tt
  of_payload-Holds c (some none) = tt
  of_payload-Holds c (some (some [])) = tt
  of_payload-Holds c (some (some (x ∷ sub))) = go (c.parse_uuid (x ∷ sub))
    where
      go : (id : Option ℕ) → Holds (IsAuthentic now db) (of_user_id db id)
      go none = tt
      go (some user_id) = of_user-Holds user_id (find_user user_id db) refl

  key_principal-Holds :
      (key : ApiKey) (u : Option User)
      → key.revoked ≡ false
      → is_over now key.expires_at ≡ false
      → find_user key.user_id db ≡ u
      → Holds (IsAuthentic now db) (key_principal key u)
  key_principal-Holds key none live young there = tt
  key_principal-Holds key (some user) live young there = elim (Bool-cases user.disabled) [
    | inl out ↦ rw out tt
    | inr fine ↦ simp fine ((key.user_id, there), refl, (live, young, there))
  ]

  of_key-Holds : (key : Option ApiKey) → Holds (IsAuthentic now db) (of_key now db key)
  of_key-Holds none = tt
  of_key-Holds (some key) = elim (Bool-cases key.revoked) [
    | inl revoked ↦ rw revoked tt
    | inr live ↦ elim (Bool-cases (is_over now key.expires_at)) [
      | inl over ↦ simp (live, over) tt
      | inr young ↦
          simp (live, young) (key_principal-Holds key (find_user key.user_id db) live young refl)
    ]
  ]

-- What a principal that got past `require_scopes` is.
abbrev pub IsAdmitted : ℕ → Db → List Scope → Principal → Type 0
IsAdmitted now db required principal =
    IsAuthentic now db principal
    × (principal.user.must_change_password ≡ false)
    × (all (λ scope. has_scope scope (scopes_of principal)) required ≡ true)

-- Past the password check.
abbrev IsReady : ℕ → Db → Principal → Type 0
IsReady now db principal =
    IsAuthentic now db principal × (principal.user.must_change_password ≡ false)

touching-Holds :
    (now : ℕ) (db : Db) (r : Result Principal)
    → Holds (IsAuthentic now db) r
    → Holds (IsAuthentic now db) (touching now db r).0
touching-Holds now db (ok principal) h = h
touching-Holds now db (err e) h = tt

no_password_change-Holds :
    (now : ℕ) (db : Db) (r : Result Principal × Db)
    → Holds (IsAuthentic now db) r.0
    → Holds (IsReady now db) (no_password_change r).0
no_password_change-Holds now db (err e, db') h = tt
no_password_change-Holds now db (ok principal, db') h =
    elim (Bool-cases principal.user.must_change_password) [
      | inl must ↦ rw must tt
      | inr free ↦ simp free (h, refl)
    ]

with_scopes-Holds :
    (now : ℕ) (db : Db) (required : List Scope) (r : Result Principal × Db)
    → Holds (IsReady now db) r.0
    → Holds (IsAdmitted now db required) (with_scopes required r).0
with_scopes-Holds now db required (err e, db') h = tt
with_scopes-Holds now db required (ok principal, db') h =
    elim (Bool-cases (all (λ scope. has_scope scope (scopes_of principal)) required)) [
      | inl enough ↦ simp enough (h.0, h.1, refl)
      | inr missing ↦ rw missing tt
    ]

current-Holds :
    (c : Crypto) (now : ℕ) (credentials : Option Text) (db : Db)
    → Holds (IsReady now db) (get_current_principal c now credentials db).0
unfolding get_current_principal resolve_principal_from_token authenticate_jwt authenticate_api_key
current-Holds c now none db = tt
current-Holds c now (some token) db = elim (Bool-cases (is_api_key_token token)) [
  | inl key ↦
      let found = find? (λ k. str_eq k.key_hash (c.hash_token token)) db.api_keys in
      rw key (
        no_password_change-Holds now db (touching now db (of_key now db found))
          (touching-Holds now db (of_key now db found) (of_key-Holds now db found)))
  | inr session ↦ rw session (
      no_password_change-Holds now db (of_payload c db (c.decode_access_token now token), db)
        (of_payload-Holds now db c (c.decode_access_token now token)))
]

-- Whoever gets past `require_scopes` is a user of the table, not disabled and with no change of
-- password due, holds every required scope, and, with an API key, has one that is neither
-- revoked nor over and belongs to that user.
pub require_scopes-admits :
    (c : Crypto) (now : ℕ) (required : List Scope) (credentials : Option Text) (db : Db)
    (principal : Principal)
    → (require_scopes c now required credentials db).0 ≡ ok principal
    → IsAdmitted now db required principal
unfolding require_scopes
require_scopes-admits c now required credentials db principal h =
    Holds-ok (IsAdmitted now db required) (require_scopes c now required credentials db).0 principal
      (with_scopes-Holds now db required (get_current_principal c now credentials db)
        (current-Holds c now credentials db))
      h
