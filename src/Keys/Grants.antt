-- ===== src/Keys/Grants.antt =====
-- The routes that change who may do what with API keys, against an abstract account of grants.
pub mod Steps
pub mod Refinement
use perzforge.Prelude.{
  ℕ, Bool, true, false, not, ◌&&◌, Option, none, some, List, [], ◌∷◌, Text, text_beq, ◌==◌,
  if◌then◌else◌,
}
use perzforge.Schema.{User, ApiKey, Db}
use perzforge.Http.{Result, ok, err, http}
use perzforge.Auth.{Crypto, get_current_user, get_current_admin, authenticate_api_key}
use perzforge.Keys.{
  CreateApiKeyRequest, is_valid_request, generate_api_key, create_api_key, revoke_api_key,
}
use perzforge.Admin.{disable_user}
use perzforge.Keys.Lookup.{Grant}

-- A request with the time, its credentials and what the generators yield.
pub data Request : Type 0 where
  create : ℕ → Option Text → ℕ → Text → CreateApiKeyRequest → Request
  withdraw : ℕ → Option Text → ℕ → Request
  lock_out : ℕ → Option Text → ℕ → Request
  present : ℕ → Text → Request

-- What a request did to the grants.
pub data Event : Type 0 where
  nothing : Event
  granted : Text → Grant → Event
  withdrawn : ℕ → Event
  locked_out : ℕ → Event

-- What a creation asks for, as the caller.
abbrev pub asked : ℕ → CreateApiKeyRequest → User → Grant
asked key_id body user = record {
  key_id = key_id;
  user_id = user.id;
  scopes = body.scopes;
  expires_at = body.expires_at;
}

abbrev pub created_event : Grant → Result (ApiKey × Text) × Db → Event × Db
created_event grant (ok (key, plaintext), db) = (granted plaintext grant, db)
created_event grant (err e, db) = (nothing, db)

abbrev pub event_if_ok : Event → Result (Unit {0}) × Db → Event × Db
event_if_ok event (ok x, db) = (event, db)
event_if_ok event (err e, db) = (nothing, db)

abbrev pub create_as : Crypto → ℕ → ℕ → Text → CreateApiKeyRequest → Result User → Db → Event × Db
create_as c now key_id random body (err e) db = (nothing, db)
create_as c now key_id random body (ok user) db =
    if is_valid_request body
    then created_event (asked key_id body user) (create_api_key c now key_id random body user db)
    else (nothing, db)

abbrev pub withdraw_as : ℕ → Result User → Db → Event × Db
withdraw_as key_id (err e) db = (nothing, db)
withdraw_as key_id (ok user) db = event_if_ok (withdrawn key_id) (revoke_api_key key_id user db)

abbrev pub lock_out_as : ℕ → Result User → Db → Event × Db
lock_out_as user_id (err e) db = (nothing, db)
lock_out_as user_id (ok admin) db = event_if_ok (locked_out user_id) (disable_user user_id admin db)

-- The whole request, its dependencies first.
unfoldable pub serve : Crypto → Request → Db → Event × Db
serve c (create now credentials key_id random body) db =
    create_as c now key_id random body (get_current_user c now credentials db) db
serve c (withdraw now credentials key_id) db =
    withdraw_as key_id (get_current_user c now credentials db) db
serve c (lock_out now credentials user_id) db =
    lock_out_as user_id (get_current_admin c now credentials db) db
serve c (present now token) db = (nothing, (authenticate_api_key c now token db).1)

unfoldable pub serve_all : Crypto → List Request → Db → List Event × Db
serve_all c [] db = ([], db)
serve_all c (r ∷ rs) db =
    let (event, db₁) = serve c r db in
    let (events, db₂) = serve_all c rs db₁ in (event ∷ events, db₂)

-- The abstract account of one text: its grant after an event.
abbrev pub without : (Grant → Bool) → Option Grant → Option Grant
without p none = none
without p (some g) = if p g then none else some g

unfoldable pub after : Text → Event → Option Grant → Option Grant
after token nothing g = g
after token (granted text grant) g = if text_beq token text then some grant else g
after token (withdrawn key_id) g = without (λ grant. grant.key_id == key_id) g
after token (locked_out user_id) g = without (λ grant. grant.user_id == user_id) g

unfoldable pub replay : Text → List Event → Option Grant → Option Grant
unfolding after
replay token [] g = g
replay token (event ∷ events) g = replay token events (after token event g)
