-- ===== src/Keys/Lookup.antt =====
-- What the tables say of a text that is presented as an API key, and what authentication makes of it.
use perzforge.Prelude.{
  ℕ, ◌≡◌, refl, ap, ◌∙◌, Bool, false, not, ◌&&◌, Option, none, some, List, Text, find?, str_eq,
  find?-holds, ==_iff, ◌==◌, Bool-cases, inl, inr, if◌then◌else◌,
}
use perzforge.Schema.{User, ApiKey, Scope, Db}
use perzforge.Http.{Result, ok, err}
use perzforge.Jobs.{Principal}
use perzforge.Auth.{
  Crypto, find_user, is_over, scopes_of, key_principal, of_key, touching, authenticate_api_key,
}

-- What a key lets its bearer do, and as whom.
pub record Grant : Type 0 where
  pub key_id : ℕ
  pub user_id : ℕ
  pub scopes : List Scope
  pub expires_at : Option ℕ

abbrev pub grant_of : ApiKey → Grant
grant_of k = record {
  key_id = k.id;
  user_id = k.user_id;
  scopes = k.scopes;
  expires_at = k.expires_at;
}

abbrev pub is_enabled : Option User → Bool
is_enabled none = false
is_enabled (some u) = not u.disabled

abbrev pub key_of : Crypto → Text → List ApiKey → Option ApiKey
key_of c token keys = find? (λ k. str_eq k.key_hash (c.hash_token token)) keys

abbrev pub live_grant : (ℕ → Bool) → Option ApiKey → Option Grant
live_grant enabled none = none
live_grant enabled (some k) = if not k.revoked && enabled k.user_id then some (grant_of k) else none

-- The grant of a text: that of the key with its hash, unless the key is revoked or its user is not
-- there or disabled.
unfoldable pub grant_in : Crypto → Text → Db → Option Grant
grant_in c token db =
    live_grant (λ user_id. is_enabled (find_user user_id db)) (key_of c token db.api_keys)

abbrev pub unexpired_grant : ℕ → Option Grant → Option Grant
unexpired_grant now none = none
unexpired_grant now (some g) = if is_over now g.expires_at then none else some g

-- What a principal of a key may do, and as whom.
abbrev granted_to : Principal → Option ApiKey → Option Grant
granted_to principal none = none
granted_to principal (some k) = some (record {
  key_id = k.id;
  user_id = principal.user.id;
  scopes = scopes_of principal;
  expires_at = k.expires_at;
})

abbrev pub admitted_as : Result Principal → Option Grant
admitted_as (ok principal) = granted_to principal principal.api_key
admitted_as (err e) = none

touching-same : (now : ℕ) (db : Db) (r : Result Principal) → (touching now db r).0 ≡ r
touching-same now db (ok principal) = refl
touching-same now db (err e) = refl

user_lem :
    (now : ℕ) (key : ApiKey) (u : Option User)
    → ((user : User) → u ≡ some user → user.id ≡ key.user_id)
    → admitted_as (key_principal key u) ≡ (if is_enabled u then some (grant_of key) else none)
user_lem now key none same = refl
user_lem now key (some user) same = elim (Bool-cases user.disabled) [
  | inl out ↦ rw out refl
  | inr fine ↦ simp fine (rw (same user refl) refl)
]

key_lem :
    (now : ℕ) (db : Db) (key : Option ApiKey)
    → admitted_as (of_key now db key)
      ≡ unexpired_grant now (live_grant (λ user_id. is_enabled (find_user user_id db)) key)
key_lem now db none = refl
key_lem now db (some key) =
    let e = user_lem now key (find_user key.user_id db) (λ user found.
      (==_iff user.id key.user_id).0
        (find?-holds (λ u. u.id == key.user_id) db.users user found)) in
    elim (Bool-cases key.revoked) [
      | inl gone ↦ simp gone refl
      | inr kept ↦ elim (Bool-cases (is_enabled (find_user key.user_id db))) [
        | inl enabled ↦ elim (Bool-cases (is_over now key.expires_at)) [
          | inl over ↦ simp (kept, enabled, over) refl
          | inr young ↦ simp (kept, enabled, young) (e ∙ rw enabled refl)
        ]
        | inr locked ↦ elim (Bool-cases (is_over now key.expires_at)) [
          | inl over ↦ simp (kept, locked, over) refl
          | inr young ↦ simp (kept, locked, young) (e ∙ rw locked refl)
        ]
      ]
    ]

-- A text is let in as an API key exactly with the grant that the tables have for it, if the grant
-- is not over: as the user and with the scopes of the grant.
pub authenticate_api_key-grant :
    (c : Crypto) (now : ℕ) (token : Text) (db : Db)
    → admitted_as (authenticate_api_key c now token db).0
      ≡ unexpired_grant now (grant_in c token db)
unfolding authenticate_api_key grant_in
authenticate_api_key-grant c now token db =
    ap admitted_as (touching-same now db (of_key now db (key_of c token db.api_keys)))
    ∙ key_lem now db (key_of c token db.api_keys)
