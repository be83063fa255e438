-- ===== src/Keys/Grants/Refinement.antt =====
-- The tables refine the account of grants.
use perzforge.Prelude.{
  ℕ, ◌≡◌, refl, ap, ◌∙◌, not, List, [], ◌∷◌, Text, find?, ◌==◌, Bool-cases, inl, inr,
}
use perzforge.Schema.{User, Db}
use perzforge.Http.{Result, ok, err}
use perzforge.Auth.{
  Crypto, find_user, get_current_user, get_current_admin, scopes_allowed_for_role,
  authenticate_api_key,
}
use perzforge.Keys.{
  CreateApiKeyRequest, is_valid_request, generate_api_key, new_api_key, create_api_key, is_key_of,
  revoke_api_key,
}
use perzforge.Admin.{disable_user}
use perzforge.Keys.Lookup.{grant_in, unexpired_grant, admitted_as, authenticate_api_key-grant}
use perzforge.Keys.Grants.{
  Request, create, withdraw, lock_out, present, Event, asked, created_event, create_as, withdraw_as,
  lock_out_as, serve, serve_all, after, replay,
}
use perzforge.Auth.Current.{IsCurrent, get_current_user-IsCurrent}
use perzforge.Keys.Grants.Steps.{withdrawn-grant, created-grant, locked_out-grant, presented-grant}

module _ (c : Crypto) (token : Text)
    (only : (text : Text) → c.hash_token text ≡ c.hash_token token → text ≡ token) where
  -- What a step owes to the account.
  abbrev Accounts : Db → Event × Db → Type 0
  Accounts db (event, db') = grant_in c token db' ≡ after token event (grant_in c token db)

  create-Accounts :
      (now key_id : ℕ) (random : Text) (body : CreateApiKeyRequest) (user : User) (db : Db)
      → IsCurrent db user
      → Accounts db
          (created_event (asked key_id body user) (create_api_key c now key_id random body user db))
  unfolding create_api_key new_api_key after
  create-Accounts now key_id random body user db current =
      elim (Bool-cases (scopes_allowed_for_role user.role body.scopes)) [
        | inr exceeds ↦ rw exceeds refl
        | inl within ↦ rw within (
            created-grant c token only
              (new_api_key c now key_id (generate_api_key random) body user)
              (generate_api_key random) db refl refl (rw current.0 (ap not current.1)))
      ]

  create_as-Accounts :
      (now key_id : ℕ) (random : Text) (body : CreateApiKeyRequest) (caller : Result User) (db : Db)
      → ((user : User) → caller ≡ ok user → IsCurrent db user)
      → Accounts db (create_as c now key_id random body caller db)
  unfolding after
  create_as-Accounts now key_id random body (err e) db current = refl
  create_as-Accounts now key_id random body (ok user) db current =
      elim (Bool-cases (is_valid_request body)) [
        | inl valid ↦ rw valid (create-Accounts now key_id random body user db (current user refl))
        | inr invalid ↦ rw invalid refl
      ]

  withdraw_as-Accounts :
      (key_id : ℕ) (caller : Result User) (db : Db) → Accounts db (withdraw_as key_id caller db)
  unfolding revoke_api_key after
  withdraw_as-Accounts key_id (err e) db = refl
  withdraw_as-Accounts key_id (ok user) db =
      withdrawn-grant c token only key_id user db (find? (is_key_of key_id user) db.api_keys) refl

  lock_out_as-Accounts :
      (user_id : ℕ) (caller : Result User) (db : Db) → Accounts db (lock_out_as user_id caller db)
  unfolding disable_user after
  lock_out_as-Accounts user_id (err e) db = refl
  lock_out_as-Accounts user_id (ok admin) db = elim (Bool-cases (user_id == admin.id)) [
    | inl self ↦ rw self refl
    | inr other ↦ rw other (locked_out-grant c token only user_id (find_user user_id db) db)
  ]

  serve-Accounts : (r : Request) (db : Db) → Accounts db (serve c r db)
  unfolding serve after
  serve-Accounts (create now credentials key_id random body) db =
      create_as-Accounts now key_id random body (get_current_user c now credentials db) db
        (get_current_user-IsCurrent c now credentials db)
  serve-Accounts (withdraw now credentials key_id) db =
      withdraw_as-Accounts key_id (get_current_user c now credentials db) db
  serve-Accounts (lock_out now credentials user_id) db =
      lock_out_as-Accounts user_id (get_current_admin c now credentials db) db
  serve-Accounts (present now text) db = presented-grant c token only now text db

  serve_all-grant :
      (rs : List Request) (db : Db)
      → let (events, db') = serve_all c rs db in
        grant_in c token db' ≡ replay token events (grant_in c token db)
  unfolding serve_all replay
  serve_all-grant [] db = refl
  serve_all-grant (r ∷ rs) db =
      let (event, db₁) = serve c r db in
      serve_all-grant rs db₁ ∙ ap (replay token (serve_all c rs db₁).0) (serve-Accounts r db)

  -- The tables of users and keys refine an account of grants, for a text whose hash no other text
  -- has: after any requests to create and revoke keys, to disable users and to authenticate, by
  -- whomever, the text is let in as an API key exactly with the grant that the account has for it,
  -- if that is not over. In the account, a creation that succeeds grants the scopes asked for to the
  -- caller, until the time asked for, a revocation and a disabling that succeed take away the grants of the key and of the
  -- user, and nothing else changes a grant.
  pub serve_all-refines :
      (rs : List Request) (now : ℕ) (db : Db)
      → let (events, db') = serve_all c rs db in
        admitted_as (authenticate_api_key c now token db').0
        ≡ unexpired_grant now (replay token events (grant_in c token db))
  serve_all-refines rs now db =
      authenticate_api_key-grant c now token (serve_all c rs db).1
      ∙ ap (unexpired_grant now) (serve_all-grant rs db)
