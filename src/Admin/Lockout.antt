-- ===== src/Admin/Lockout.antt =====
-- What disabling a user does to the access of that user.
use perzforge.Prelude.{
  ℕ, ◌≡◌, ◌≢◌, refl, sym, ap, ◌∙◌, Bool, true, false, not, ◌||◌, ==_refl, Option, none, some, List,
  [], ◌∷◌, Text, find?-holds, find?, any, str_eq, ==_iff, arith, ◌==◌, Bool-cases, inl, inr,
}
use perzforge.Schema.{User, ApiKey, Scope, Db}
use perzforge.Http.{Result, ok, err}
use perzforge.Jobs.{Principal}
use perzforge.Auth.{
  Crypto, find_user, require_scopes, get_current_user, get_current_admin, authenticate_api_key,
  scopes_allowed_for_role, touching, touch_api_key_last_used, of_key,
}
use perzforge.Auth.Access.{require_scopes-admits}
use perzforge.Keys.{
  CreateApiKeyRequest, is_valid_request, generate_api_key, new_api_key, insert_key, create_api_key,
  is_key_of, revoke_found, revoke_api_key,
}
use perzforge.Admin.{disable_user, disable_found}
use perzforge.Keys.Lookup.{is_enabled}
use perzforge.Keys.Grants.{
  Request, create, withdraw, lock_out, present, Event, locked_out, event_if_ok, create_as,
  withdraw_as, lock_out_as, serve, serve_all,
}
use perzforge.Keys.Grants.Steps.{enabled-locked}

abbrev is_on : ℕ → Db → Bool
is_on user_id db = is_enabled (find_user user_id db)

-- The users are those of `db`.
abbrev SameUsers : Db → Event × Db → Type 0
SameUsers db m = m.1.users ≡ db.users

create_as-SameUsers :
    (c : Crypto) (now key_id : ℕ) (random : Text) (body : CreateApiKeyRequest)
    (caller : Result User) (db : Db)
    → SameUsers db (create_as c now key_id random body caller db)
unfolding create_api_key insert_key
create_as-SameUsers c now key_id random body (err e) db = refl
create_as-SameUsers c now key_id random body (ok user) db =
    elim (Bool-cases (is_valid_request body)) [
      | inr invalid ↦ rw invalid refl
      | inl valid ↦ rw valid (elim (Bool-cases (scopes_allowed_for_role user.role body.scopes)) [
        | inr exceeds ↦ rw exceeds refl
        | inl within ↦ rw within (
            let key = new_api_key c now key_id (generate_api_key random) body user in
            elim (Bool-cases
              (any (λ k. str_eq k.key_hash key.key_hash || k.id == key.id) db.api_keys)) [
                | inl taken ↦ rw taken refl
                | inr fresh ↦ rw fresh refl
              ])
      ])
    ]

revoke_found-SameUsers :
    (event : Event) (o : Option ApiKey) (db : Db)
    → SameUsers db (event_if_ok event (revoke_found o db))
revoke_found-SameUsers event none db = refl
revoke_found-SameUsers event (some key) db = refl

withdraw_as-SameUsers :
    (key_id : ℕ) (caller : Result User) (db : Db) → SameUsers db (withdraw_as key_id caller db)
unfolding revoke_api_key
withdraw_as-SameUsers key_id (err e) db = refl
withdraw_as-SameUsers key_id (ok user) db =
    revoke_found-SameUsers _ (find? (is_key_of key_id user) db.api_keys) db

touched-SameUsers :
    (now : ℕ) (o : Option ApiKey) (db : Db)
    → (let db' : Db = elim o [ none ↦ db | some key ↦ touch_api_key_last_used now key.id db ] in
        db'.users ≡ db.users)
unfolding touch_api_key_last_used
touched-SameUsers now none db = refl
touched-SameUsers now (some key) db = refl

touching-SameUsers :
    (now : ℕ) (r : Result Principal) (db : Db) → (touching now db r).1.users ≡ db.users
touching-SameUsers now (ok principal) db = touched-SameUsers now principal.api_key db
touching-SameUsers now (err e) db = refl

-- Disabling enables nobody, and its success disables the user.
disable_found-off :
    (user_id target : ℕ) (o : Option User) (db : Db)
    → is_on user_id db ≡ false
    → is_on user_id (event_if_ok (locked_out target) (disable_found target o db)).1 ≡ false
disable_found-off user_id target none db off = off
disable_found-off user_id target (some u) db off =
    enabled-locked target user_id db.users ∙ rw off refl

lock_out_as-off :
    (user_id target : ℕ) (caller : Result User) (db : Db)
    → is_on user_id db ≡ false
    → is_on user_id (lock_out_as target caller db).1 ≡ false
unfolding disable_user
lock_out_as-off user_id target (err e) db off = off
lock_out_as-off user_id target (ok admin) db off = elim (Bool-cases (target == admin.id)) [
  | inl self ↦ rw self off
  | inr other ↦ rw other (disable_found-off user_id target (find_user target db) db off)
]

same-off :
    (user_id : ℕ) {users users' : List User}
    → users' ≡ users
    → is_enabled (find? (λ u. u.id == user_id) users) ≡ false
    → is_enabled (find? (λ u. u.id == user_id) users') ≡ false
same-off user_id same off = ap (λ us. is_enabled (find? (λ u. u.id == user_id) us)) same ∙ off

serve-off :
    (c : Crypto) (user_id : ℕ) (r : Request) (db : Db)
    → is_on user_id db ≡ false
    → is_on user_id (serve c r db).1 ≡ false
unfolding serve authenticate_api_key
serve-off c user_id (create now credentials key_id random body) db off =
    same-off user_id
      (create_as-SameUsers c now key_id random body (get_current_user c now credentials db) db) off
serve-off c user_id (withdraw now credentials key_id) db off =
    same-off user_id (withdraw_as-SameUsers key_id (get_current_user c now credentials db) db) off
serve-off c user_id (lock_out now credentials target) db off =
    lock_out_as-off user_id target (get_current_admin c now credentials db) db off
serve-off c user_id (present now text) db off =
    same-off user_id
      (touching-SameUsers now
        (of_key now db (find? (λ k. str_eq k.key_hash (c.hash_token text)) db.api_keys)) db)
      off

serve_all-off :
    (c : Crypto) (user_id : ℕ) (rs : List Request) (db : Db)
    → is_on user_id db ≡ false
    → is_on user_id (serve_all c rs db).1 ≡ false
unfolding serve_all
serve_all-off c user_id [] db off = off
serve_all-off c user_id (r ∷ rs) db off =
    serve_all-off c user_id rs (serve c r db).1 (serve-off c user_id r db off)

disable_found-locks :
    (target : ℕ) (o : Option User) (db : Db)
    → (event_if_ok (locked_out target) (disable_found target o db)).0 ≡ locked_out target
    → is_on target (event_if_ok (locked_out target) (disable_found target o db)).1 ≡ false
disable_found-locks target none db e = cc
disable_found-locks target (some u) db e =
    enabled-locked target target db.users ∙ rw (==_refl target) (ground arith)

lock_out_as-locks :
    (target : ℕ) (caller : Result User) (db : Db)
    → (lock_out_as target caller db).0 ≡ locked_out target
    → is_on target (lock_out_as target caller db).1 ≡ false
unfolding disable_user
lock_out_as-locks target (err x) db = λ e. cc
lock_out_as-locks target (ok admin) db = elim (Bool-cases (target == admin.id)) [
  | inl self ↦ rw self (λ e. cc)
  | inr other ↦ rw other (disable_found-locks target (find_user target db) db)
]

-- Who is not enabled is not let in.
refused :
    (c : Crypto) (later : ℕ) (required : List Scope) (presented : Option Text) (db : Db)
    (principal : Principal)
    → (require_scopes c later required presented db).0 ≡ ok principal
    → is_on principal.user.id db ≡ true
refused c later required presented db principal h =
    let (((user_id, there), enabled, key), free, scopes) =
      require_scopes-admits c later required presented db principal h in
    let same =
      (==_iff principal.user.id user_id).0
        (find?-holds (λ u. u.id == user_id) db.users principal.user there) in
    ap is_enabled (ap (λ k. find_user k db) same ∙ there) ∙ ap not enabled

-- Once an administrator has disabled a user, nobody gets past `require_scopes` as that user,
-- whatever the credentials, a session or an API key, at any time, and after any requests of anybody
-- to create and revoke keys, to disable users and to authenticate.
pub serve_all-locks_out :
    (c : Crypto) (now later user_id : ℕ) (credentials presented : Option Text) (rs : List Request)
    (required : List Scope) (db : Db) (principal : Principal)
    → (serve c (lock_out now credentials user_id) db).0 ≡ locked_out user_id
    → (require_scopes c later required presented
        (serve_all c (lock_out now credentials user_id ∷ rs) db).1).0
      ≡ ok principal
    → principal.user.id ≢ user_id
unfolding serve serve_all
serve_all-locks_out c now later user_id credentials presented rs required db principal gone h same =
    let db₁ = (serve c (lock_out now credentials user_id) db).1 in
    let db₂ = (serve_all c rs db₁).1 in
    let off =
      serve_all-off c user_id rs db₁
        (lock_out_as-locks user_id (get_current_admin c now credentials db) db gone) in
    let on = refused c later required presented db₂ principal h in
    let on' = ap (λ k. is_on k db₂) (sym same) ∙ on in cc (off, on')
