-- ===== src/Keys.antt =====
-- api/routers/keys.py and `generate_api_key` of api/security.py: the API keys of a user. The text
-- that the random generator yields and the identifier of the new row are given.
pub mod Lookup
pub mod Grants
use perzforge.Prelude.{
  ℕ, Bool, true, false, not, ◌&&◌, ◌||◌, Option, none, some, List, [], ◌∷◌, ◌++◌, String, Text,
  codes, filter, find?, any, update_where, take, str_eq, leb, length, ◌==◌, if◌then◌else◌,
}
use perzforge.Schema.{User, ApiKey, Scope, Db}
use perzforge.Http.{Result, ok, err, Error, http, integrity_error}
use perzforge.Auth.{Crypto, has_scope, scopes_allowed_for_role}
use perzforge.RateLimit.Identity.{api_key_prefix}
use perzforge.Pagination.{order_desc}

pub record CreateApiKeyRequest : Type 0 where
  pub name : Text
  pub scopes : List Scope
  pub expires_at : Option ℕ

-- `len(scopes) != len(set(scopes))`
unfoldable pub has_duplicates : List Scope → Bool
has_duplicates [] = false
has_duplicates (scope ∷ scopes) = has_scope scope scopes || has_duplicates scopes

-- The validation of the request; that scopes are known is their type.
unfoldable pub is_valid_request : CreateApiKeyRequest → Bool
unfolding has_duplicates
is_valid_request body =
    leb 1 (length body.name)
    && leb (length body.name) 128
    && leb 1 (length body.scopes)
    && not (has_duplicates body.scopes)

-- The plaintext of a key, from the random text.
unfoldable pub generate_api_key : Text → Text
unfolding api_key_prefix
generate_api_key random = api_key_prefix ++ random

unfoldable pub new_api_key : Crypto → ℕ → ℕ → Text → CreateApiKeyRequest → User → ApiKey
new_api_key c now key_id plaintext body user = record {
  id = key_id;
  user_id = user.id;
  name = body.name;
  key_hash = c.hash_token plaintext;
  prefix = take 8 plaintext;
  scopes = body.scopes;
  expires_at = body.expires_at;
  revoked = false;
  last_used_at = none;
  created_at = now;
}

-- INSERT; hashes and identifiers are unique.
unfoldable pub insert_key : ApiKey → Text → Db → Result (ApiKey × Text) × Db
insert_key key plaintext db =
    if any (λ k. str_eq k.key_hash key.key_hash || k.id == key.id) db.api_keys
    then (err integrity_error, db)
    else (ok (key, plaintext), record db { api_keys = db.api_keys ++ key ∷ [] })

-- The row and the plaintext, which is shown only here.
unfoldable pub create_api_key :
    Crypto → ℕ → ℕ → Text → CreateApiKeyRequest → User → Db → Result (ApiKey × Text) × Db
create_api_key c now key_id random body user db =
    if not (scopes_allowed_for_role user.role body.scopes)
    then (err (http 403 "Requested scopes exceed your role"), db)
    else insert_key (new_api_key c now key_id (generate_api_key random) body user)
        (generate_api_key random) db

unfoldable pub list_api_keys : User → Db → List ApiKey
list_api_keys user db =
    order_desc (λ k. k.created_at) (filter (λ k. k.user_id == user.id) db.api_keys)

abbrev pub revoked_key : ApiKey → ApiKey
revoked_key k = record k { revoked = true }

abbrev pub is_key_of : ℕ → User → ApiKey → Bool
is_key_of key_id user k = k.id == key_id && k.user_id == user.id

abbrev pub revoke_found : Option ApiKey → Db → Result (Unit {0}) × Db
revoke_found none db = (err (http 404 "API key not found"), db)
revoke_found (some key) db =
    (ok tt, record db { api_keys = update_where (λ k. k.id == key.id) revoked_key db.api_keys })

unfoldable pub revoke_api_key : ℕ → User → Db → Result (Unit {0}) × Db
revoke_api_key key_id user db = revoke_found (find? (is_key_of key_id user) db.api_keys) db
