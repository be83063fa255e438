-- ===== src/Auth/Session.antt =====
-- api/routers/auth.py: sessions. A session is a family of refresh tokens, each good for one refresh.
-- The new token's text and the identifiers of new rows are given; a result is the refresh token
-- of the cookie that is set, with the user whom the access token is for.
pub mod Rotation
use perzforge.Prelude.{
  length, codes, ℕ, ◌+◌, ◌*◌, Bool, true, false, not, ◌&&◌, ◌||◌, Option, none, some, List, [], ◌∷◌,
  ◌++◌, String, Text, find?, update_where, str_eq, leb, ◌==◌, if◌then◌else◌,
}
use perzforge.Settings.{Settings}
use perzforge.Schema.{User, RefreshToken, Db}
use perzforge.Http.{Result, ok, err, Error, http}
use perzforge.Auth.{Crypto, find_user}

-- What the random generators yield for a request: token, row and family.
pub record Fresh : Type 0 where
  pub token : Text
  pub row_id : ℕ
  pub family_id : ℕ

abbrev pub Issued : Type 0
Issued = Text × User

abbrev pub find_token : Crypto → Text → Db → Option RefreshToken
find_token c token db = find? (λ t. str_eq t.token_hash (c.hash_token token)) db.refresh_tokens

abbrev pub revoke : RefreshToken → RefreshToken
revoke t = record t { revoked = true }

abbrev pub revoke_where : (RefreshToken → Bool) → Db → Db
revoke_where p db = record db { refresh_tokens = update_where p revoke db.refresh_tokens }

unfoldable pub revoke_all_refresh_families : ℕ → Db → Db
revoke_all_refresh_families user_id db = revoke_where (λ t. t.user_id == user_id) db

unfoldable pub revoke_token_family : ℕ → Db → Db
revoke_token_family family_id db = revoke_where (λ t. t.family_id == family_id) db

abbrev pub new_token : Settings → Crypto → ℕ → Fresh → ℕ → ℕ → RefreshToken
new_token s c now fresh user_id family_id = record {
  id = fresh.row_id;
  user_id = user_id;
  token_hash = c.hash_token fresh.token;
  family_id = family_id;
  expires_at = now + s.jwt_refresh_ttl_days * (24 * 60 * 60);
  revoked = false;
}

-- A family of its own, or that of the token that is replaced.
abbrev pub or_new : Option ℕ → ℕ → ℕ
or_new none fresh = fresh
or_new (some family_id) fresh = family_id

unfoldable pub issue_refresh_token : Settings → Crypto → ℕ → Fresh → User → Option ℕ → Db → Db
issue_refresh_token s c now fresh user family_id db = record db {
  refresh_tokens =
      db.refresh_tokens ++ new_token s c now fresh user.id (or_new family_id fresh.family_id) ∷ [];
}

abbrev pub invalid_credentials : Error
invalid_credentials = http 401 "Invalid email or password"

abbrev pub login_as : Settings → Crypto → ℕ → Fresh → String → Option User → Db → Result Issued × Db
login_as s c now fresh password none db = (err invalid_credentials, db)
login_as s c now fresh password (some user) db =
    if user.disabled || not (c.verify_password password user.password_hash)
    then (err invalid_credentials, db)
    else (ok (fresh.token, user), issue_refresh_token s c now fresh user none db)

-- The email is in lower case, as the rows have it.
unfoldable pub login : Settings → Crypto → ℕ → Fresh → String → String → Db → Result Issued × Db
login s c now fresh email password db =
    login_as s c now fresh password (find? (λ u. str_eq u.email email) db.users) db

abbrev pub invalid_refresh : Error
invalid_refresh = http 401 "Invalid or expired refresh token"

-- The rotation, once the token is good.
abbrev pub rotate :
    Settings → Crypto → ℕ → Fresh → RefreshToken → Option User → Db → Result Issued × Db
rotate s c now fresh row none db = (err invalid_refresh, revoke_token_family row.family_id db)
rotate s c now fresh row (some user) db = (
  ok (fresh.token, user),
  issue_refresh_token s c now fresh user (some row.family_id)
      (revoke_where (λ t. t.id == row.id) db),
)

abbrev pub refresh_row :
    Settings → Crypto → ℕ → Fresh → Option RefreshToken → Db → Result Issued × Db
refresh_row s c now fresh none db = (err invalid_refresh, db)
refresh_row s c now fresh (some row) db =
    if row.revoked
    then (err invalid_refresh, revoke_token_family row.family_id db)
    else if leb row.expires_at now
    then (err invalid_refresh, revoke_where (λ t. t.id == row.id) db)
    else rotate s c now fresh row (find_user row.user_id db) db

-- `none` and an empty text are a request without the cookie.
unfoldable pub refresh_session :
    Settings → Crypto → ℕ → Fresh → Option Text → Db → Result Issued × Db
refresh_session s c now fresh none db = (err invalid_refresh, db)
refresh_session s c now fresh (some []) db = (err invalid_refresh, db)
refresh_session s c now fresh (some (x ∷ token)) db =
    refresh_row s c now fresh (find_token c (x ∷ token) db) db

abbrev pub logout_row : Option RefreshToken → Db → Db
logout_row none db = db
logout_row (some row) db = revoke_token_family row.family_id db

unfoldable pub logout : Crypto → Option Text → Db → Db
logout c none db = db
logout c (some []) db = db
logout c (some (x ∷ token)) db = logout_row (find_token c (x ∷ token) db) db

abbrev pub with_password : Crypto → String → User → User
with_password c password user = record user {
  password_hash = c.hash_password password;
  must_change_password = false;
}

unfoldable pub change_password : Crypto → String → String → User → Db → Result (Unit {0}) × Db
change_password c old_password new_password user db =
    if not (leb 12 (length (codes new_password)))
    then (err (http 422 "new_password"), db)
    else if c.verify_password old_password user.password_hash
    then (
      ok tt,
      revoke_all_refresh_families user.id (record db {
        users = update_where (λ u. u.id == user.id) (with_password c new_password) db.users;
      }),
    )
    else (err (http 401 "Invalid current password"), db)
