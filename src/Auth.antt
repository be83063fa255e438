-- ===== src/Auth.antt =====
-- api/deps.py, api/scopes.py and api/security.py: who a request comes from, and what it may do.
pub mod Access
pub mod Current
pub mod Session
use perzforge.Prelude.{
  ℕ, Bool, true, false, not, ◌&&◌, ◌||◌, Option, none, some, List, [], ◌∷◌, String, Text, find?,
  update_where, any, all, str_eq, leb, ◌==◌, if◌then◌else◌,
}
use perzforge.Schema.{
  User, UserRole, ApiKey, Db, Scope, jobs_read, jobs_write, models_read, llm_invoke,
  instances_manage, is_admin,
}
use perzforge.Http.{Result, ok, err, Error, http, then_run, ◌>>=◌}
use perzforge.Jobs.{Principal}
use perzforge.RateLimit.Identity.{is_api_key_token}

-- SHA-256, argon2, PyJWT and the parse of a UUID. A token that PyJWT refuses decodes to `none`,
-- one without a subject to `some none`.
pub record Crypto : Type 0 where
  pub hash_token : Text → String
  pub verify_password : String → String → Bool
  pub hash_password : String → String
  pub decode_access_token : ℕ → Text → Option (Option Text)
  pub parse_uuid : Text → Option ℕ

abbrev pub scope_code : Scope → ℕ
scope_code jobs_read = 0
scope_code jobs_write = 1
scope_code models_read = 2
scope_code llm_invoke = 3
scope_code instances_manage = 4

abbrev pub has_scope : Scope → List Scope → Bool
has_scope scope scopes = any (λ t. scope_code scope == scope_code t) scopes

-- VALID_SCOPES
abbrev pub valid_scopes : List Scope
valid_scopes = jobs_read ∷ jobs_write ∷ models_read ∷ llm_invoke ∷ instances_manage ∷ []

-- ROLE_SCOPES
unfoldable pub role_scopes : UserRole → List Scope
role_scopes UserRole.admin = valid_scopes
role_scopes UserRole.user = valid_scopes
role_scopes UserRole.readonly = jobs_read ∷ models_read ∷ []

unfoldable pub scopes_allowed_for_role : UserRole → List Scope → Bool
scopes_allowed_for_role role requested = all (λ scope. has_scope scope (role_scopes role)) requested

-- Principal.scopes
abbrev pub scopes_of : Principal → List Scope
scopes_of principal = elim principal.api_key [
  | none ↦ role_scopes principal.user.role
  | some key ↦ key.scopes
]

abbrev pub find_user : ℕ → Db → Option User
find_user user_id db = find? (λ u. u.id == user_id) db.users

abbrev pub reject_disabled_user : Principal → Result Principal
reject_disabled_user principal =
    if principal.user.disabled then err (http 401 "Account disabled") else ok principal

abbrev pub reject_password_change_required : Principal → Result Principal
reject_password_change_required principal =
    if principal.user.must_change_password
    then err (http 403 "password change required")
    else ok principal

abbrev pub touched : ℕ → ApiKey → ApiKey
touched now key = record key { last_used_at = some now }

unfoldable pub touch_api_key_last_used : ℕ → ℕ → Db → Db
touch_api_key_last_used now key_id db = record db {
  api_keys = update_where (λ k. k.id == key_id) (touched now) db.api_keys;
}

abbrev pub invalid_key : Error
invalid_key = http 401 "Invalid or expired API key"

abbrev pub is_over : ℕ → Option ℕ → Bool
is_over now none = false
is_over now (some expires_at) = leb expires_at now

-- The key's user, if the key and the user are in order.
abbrev pub key_principal : ApiKey → Option User → Result Principal
key_principal key none = err invalid_key
key_principal key (some user) = reject_disabled_user (record { user = user; api_key = some key })

abbrev pub of_key : ℕ → Db → Option ApiKey → Result Principal
of_key now db none = err invalid_key
of_key now db (some key) =
    if key.revoked
    then err invalid_key
    else if is_over now key.expires_at
    then err invalid_key
    else key_principal key (find_user key.user_id db)

-- The touch of the key, after the checks.
abbrev pub touching : ℕ → Db → Result Principal → Result Principal × Db
touching now db (err e) = (err e, db)
touching now db (ok principal) = (
  ok principal,
  elim principal.api_key [ none ↦ db | some key ↦ touch_api_key_last_used now key.id db ],
)

unfoldable pub authenticate_api_key : Crypto → ℕ → Text → Db → Result Principal × Db
authenticate_api_key c now token db =
    touching now db
      (of_key now db (find? (λ k. str_eq k.key_hash (c.hash_token token)) db.api_keys))

abbrev pub invalid_token : Error
invalid_token = http 401 "Invalid or expired token"

abbrev pub of_user : Option User → Result Principal
of_user none = err invalid_token
of_user (some user) = reject_disabled_user (record { user = user; api_key = none })

abbrev pub of_user_id : Db → Option ℕ → Result Principal
of_user_id db none = err invalid_token
of_user_id db (some user_id) = of_user (find_user user_id db)

abbrev pub of_payload : Crypto → Db → Option (Option Text) → Result Principal
of_payload c db none = err invalid_token
of_payload c db (some none) = err invalid_token
of_payload c db (some (some [])) = err invalid_token
of_payload c db (some (some (x ∷ sub))) = of_user_id db (c.parse_uuid (x ∷ sub))

unfoldable pub authenticate_jwt : Crypto → ℕ → Text → Db → Result Principal
authenticate_jwt c now token db = of_payload c db (c.decode_access_token now token)

abbrev pub no_password_change : Result Principal × Db → Result Principal × Db
no_password_change (ok principal, db) = (reject_password_change_required principal, db)
no_password_change (err e, db) = (err e, db)

unfoldable pub resolve_principal_from_token : Crypto → ℕ → Text → Db → Result Principal × Db
resolve_principal_from_token c now token db =
    if is_api_key_token token
    then no_password_change (authenticate_api_key c now token db)
    else no_password_change (authenticate_jwt c now token db, db)

-- The credentials of the header, if there are any with the scheme of a bearer.
unfoldable pub get_current_principal : Crypto → ℕ → Option Text → Db → Result Principal × Db
get_current_principal c now none db = (err (http 401 "Not authenticated"), db)
get_current_principal c now (some token) db = resolve_principal_from_token c now token db

abbrev pub with_scopes : List Scope → Result Principal × Db → Result Principal × Db
with_scopes required (err e, db) = (err e, db)
with_scopes required (ok principal, db) =
    if all (λ scope. has_scope scope (scopes_of principal)) required
    then (ok principal, db)
    else (err (http 403 "Insufficient scope"), db)

unfoldable pub require_scopes : Crypto → ℕ → List Scope → Option Text → Db → Result Principal × Db
require_scopes c now required credentials db =
    with_scopes required (get_current_principal c now credentials db)

-- get_authenticated_user: a session only, no key.
unfoldable pub get_authenticated_user : Crypto → ℕ → Option Text → Db → Result Principal
get_authenticated_user c now none db = err (http 401 "Not authenticated")
get_authenticated_user c now (some token) db =
    if is_api_key_token token
    then err (http 403 "JWT required for this endpoint")
    else authenticate_jwt c now token db

abbrev pub user_of : Result Principal → Result User
user_of (ok principal) = ok principal.user
user_of (err e) = err e

-- get_current_user: the user of a session who need not change the password first.
unfoldable pub get_current_user : Crypto → ℕ → Option Text → Db → Result User
unfolding get_authenticated_user
get_current_user c now credentials db = get_authenticated_user c now credentials db >>= λ principal.
    user_of (reject_password_change_required principal)

-- get_current_admin
unfoldable pub get_current_admin : Crypto → ℕ → Option Text → Db → Result User
unfolding get_current_user
get_current_admin c now credentials db = get_current_user c now credentials db >>= λ user.
    if is_admin user.role then ok user else err (http 403 "Admin required")
