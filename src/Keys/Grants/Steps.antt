-- ===== src/Keys/Grants/Steps.antt =====
-- What each change of the tables does to the grant of one text, whose hash no other text has.
use perzforge.Prelude.{
  ℕ, ◌≡◌, refl, sym, ap, ◌∙◌, Bool, true, false, not, ◌&&◌, ◌||◌, Option, none, some, List, [], ◌∷◌,
  ◌++◌, Text, text_beq, text_beq-eq, text_beq_refl, find?, any, str_eq, eq_iff, update_where,
  find?-holds, find?-append_none, find?-append_some, arith, ◌==◌, Bool-cases, Option-cases, inl,
  inr, if◌then◌else◌,
}
use mathlib.Core.Option
use perzforge.Schema.{User, ApiKey, Db}
use perzforge.Http.{Result, ok, err}
use perzforge.Jobs.{Principal}
use perzforge.Auth.{
  Crypto, find_user, authenticate_api_key, touched, touching, of_key, touch_api_key_last_used,
}
use perzforge.Keys.{insert_key, is_key_of, revoked_key, revoke_found}
use perzforge.Admin.{disabled_user, disable_found}
use perzforge.Keys.Lookup.{grant_of, is_enabled, key_of, live_grant, grant_in}
use perzforge.Keys.Grants.{
  granted, withdrawn, locked_out, created_event, event_if_ok, without, after,
}

find?-update_kept :
    {A : Type 0} (p q : A → Bool) (f : A → A) (xs : List A)
    → ((x : A) → p (f x) ≡ p x)
    → find? p (update_where q f xs) ≡ Option.map (λ x. if q x then f x else x) (find? p xs)
find?-update_kept p q f [] keeps = refl
find?-update_kept p q f (x ∷ xs) keeps = ground (arith, keeps x, find?-update_kept p q f xs keeps)

any-find_none : {A : Type 0} (p : A → Bool) (xs : List A) → any p xs ≡ false → find? p xs ≡ none
any-find_none p [] h = refl
any-find_none p (x ∷ xs) h = ground (arith, any-find_none p xs)

any-either :
    {A : Type 0} (p q : A → Bool) (xs : List A)
    → any (λ x. p x || q x) xs ≡ false
    → any p xs ≡ false
any-either p q [] h = refl
any-either p q (x ∷ xs) h = ground (arith, any-either p q xs)

-- A withdrawal, on the key that a text has.
withdrawn_lem :
    (enabled : ℕ → Bool) (key_id : ℕ) (o : Option ApiKey)
    → live_grant enabled (Option.map (λ k. if k.id == key_id then revoked_key k else k) o)
      ≡ without (λ g. g.key_id == key_id) (live_grant enabled o)
withdrawn_lem enabled key_id none = refl
withdrawn_lem enabled key_id (some k) = ground arith

touched_lem :
    (enabled : ℕ → Bool) (now key_id : ℕ) (o : Option ApiKey)
    → live_grant enabled (Option.map (λ k. if k.id == key_id then touched now k else k) o)
      ≡ live_grant enabled o
touched_lem enabled now key_id none = refl
touched_lem enabled now key_id (some k) = ground arith

locked_lem :
    (enabled enabled' : ℕ → Bool) (user_id : ℕ) (o : Option ApiKey)
    → ((k : ℕ) → enabled' k ≡ (enabled k && not (k == user_id)))
    → live_grant enabled' o ≡ without (λ g. g.user_id == user_id) (live_grant enabled o)
locked_lem enabled enabled' user_id none e = refl
locked_lem enabled enabled' user_id (some k) e = let e' = e k.user_id in ground arith

pub enabled-locked :
    (user_id k : ℕ) (users : List User)
    → is_enabled (find? (λ u. u.id == k) (update_where (λ u. u.id == user_id) disabled_user users))
      ≡ (is_enabled (find? (λ u. u.id == k) users) && not (k == user_id))
enabled-locked user_id k [] = refl
enabled-locked user_id k (u ∷ users) = ground (arith, enabled-locked user_id k users)

granted_lem :
    (enabled : ℕ → Bool) (key : ApiKey)
    → key.revoked ≡ false
    → enabled key.user_id ≡ true
    → live_grant enabled (some key) ≡ some (grant_of key)
granted_lem enabled key valid on = ground arith

module _ (c : Crypto) (token : Text)
    (only : (text : Text) → c.hash_token text ≡ c.hash_token token → text ≡ token) where
  pub withdrawn-grant :
      (key_id : ℕ) (user : User) (db : Db) (o : Option ApiKey)
      → find? (is_key_of key_id user) db.api_keys ≡ o
      → (let (event, db') = event_if_ok (withdrawn key_id) (revoke_found o db) in
          grant_in c token db' ≡ after token event (grant_in c token db))
  unfolding grant_in after
  withdrawn-grant key_id user db none e = refl
  withdrawn-grant key_id user db (some key) e =
      let held = find?-holds (is_key_of key_id user) db.api_keys key e in
      let same : key.id ≡ key_id = ground (arith, held) in
      let enabled = λ (k : ℕ). is_enabled (find_user k db) in
      ap (live_grant enabled) (
        find?-update_kept (λ k. str_eq k.key_hash (c.hash_token token)) (λ k. k.id == key.id)
          revoked_key db.api_keys (λ k. refl))
      ∙ withdrawn_lem enabled key.id (key_of c token db.api_keys)
      ∙ ap (λ n. without (λ g. g.key_id == n) (grant_in c token db)) same

  key_of-new :
      (key : ApiKey) (keys : List ApiKey)
      → key.key_hash ≡ c.hash_token token
      → any (λ k. str_eq k.key_hash key.key_hash) keys ≡ false
      → key_of c token (keys ++ key ∷ []) ≡ some key
  key_of-new key keys hash vacant =
      let p = λ (k : ApiKey). str_eq k.key_hash (c.hash_token token) in
      let vacant' = ap (λ h. any (λ k. str_eq k.key_hash h) keys) (sym hash) ∙ vacant in
      find?-append_none p keys (key ∷ []) (any-find_none p keys vacant')
      ∙ rw ((eq_iff key.key_hash (c.hash_token token)).1 hash) refl

  key_of-other :
      (key : ApiKey) (keys : List ApiKey)
      → str_eq key.key_hash (c.hash_token token) ≡ false
      → key_of c token (keys ++ key ∷ []) ≡ key_of c token keys
  key_of-other key keys differs =
      let p = λ (k : ApiKey). str_eq k.key_hash (c.hash_token token) in
      elim (Option-cases (find? p keys)) [
        | inl absent ↦ find?-append_none p keys (key ∷ []) absent ∙ rw differs refl ∙ sym absent
        | inr (k, there) ↦ find?-append_some p keys (key ∷ []) k there ∙ sym there
      ]

  hash_differs :
      (key : ApiKey) (plaintext : Text)
      → key.key_hash ≡ c.hash_token plaintext
      → text_beq token plaintext ≡ false
      → str_eq key.key_hash (c.hash_token token) ≡ false
  hash_differs key plaintext hash other =
      elim (Bool-cases (str_eq key.key_hash (c.hash_token token))) [
        | inr differs ↦ differs
        | inl agrees ↦
            let same =
              only plaintext (sym hash ∙ (eq_iff key.key_hash (c.hash_token token)).0 agrees) in
            absurd (cc (text_beq_refl token, ap (text_beq token) same, other))
      ]

  new_key-grant :
      (key : ApiKey) (plaintext : Text) (db : Db)
      → key.key_hash ≡ c.hash_token plaintext
      → key.revoked ≡ false
      → is_enabled (find_user key.user_id db) ≡ true
      → any (λ k. str_eq k.key_hash key.key_hash || k.id == key.id) db.api_keys ≡ false
      → grant_in c token (record db { api_keys = db.api_keys ++ key ∷ [] })
        ≡ after token (granted plaintext (grant_of key)) (grant_in c token db)
  unfolding grant_in after
  new_key-grant key plaintext db hash valid enabled fresh =
      let on = λ (k : ℕ). is_enabled (find_user k db) in
      let vacant =
        any-either (λ k. str_eq k.key_hash key.key_hash) (λ k. k.id == key.id) db.api_keys fresh in
      elim (Bool-cases (text_beq token plaintext)) [
        | inl same ↦
            let hash' = hash ∙ ap (c.hash_token) (sym (text_beq-eq token plaintext same)) in
            ap (live_grant on) (key_of-new key db.api_keys hash' vacant)
            ∙ granted_lem on key valid enabled
            ∙ rw same refl
        | inr other ↦
            ap (live_grant on)
              (key_of-other key db.api_keys (hash_differs key plaintext hash other))
            ∙ rw other refl
      ]

  pub created-grant :
      (key : ApiKey) (plaintext : Text) (db : Db)
      → key.key_hash ≡ c.hash_token plaintext
      → key.revoked ≡ false
      → is_enabled (find_user key.user_id db) ≡ true
      → (let (event, db') = created_event (grant_of key) (insert_key key plaintext db) in
          grant_in c token db' ≡ after token event (grant_in c token db))
  unfolding insert_key after
  created-grant key plaintext db hash valid enabled =
      elim (Bool-cases (any (λ k. str_eq k.key_hash key.key_hash || k.id == key.id) db.api_keys)) [
        | inl taken ↦ rw taken refl
        | inr fresh ↦ rw fresh (new_key-grant key plaintext db hash valid enabled fresh)
      ]

  pub locked_out-grant :
      (user_id : ℕ) (o : Option User) (db : Db)
      → (let (event, db') = event_if_ok (locked_out user_id) (disable_found user_id o db) in
          grant_in c token db' ≡ after token event (grant_in c token db))
  unfolding grant_in after
  locked_out-grant user_id none db = refl
  locked_out-grant user_id (some u) db =
      locked_lem (λ k. is_enabled (find_user k db)) _ user_id (key_of c token db.api_keys)
        (λ k. enabled-locked user_id k db.users)

  touched-grant :
      (now : ℕ) (o : Option ApiKey) (db : Db)
      → grant_in c token (elim o [ none ↦ db | some key ↦ touch_api_key_last_used now key.id db ])
        ≡ grant_in c token db
  unfolding touch_api_key_last_used grant_in
  touched-grant now none db = refl
  touched-grant now (some key) db =
      let on = λ (k : ℕ). is_enabled (find_user k db) in
      ap (live_grant on) (
        find?-update_kept (λ k. str_eq k.key_hash (c.hash_token token)) (λ k. k.id == key.id)
          (touched now) db.api_keys (λ k. refl))
      ∙ touched_lem on now key.id (key_of c token db.api_keys)

  touching-grant :
      (now : ℕ) (r : Result Principal) (db : Db)
      → grant_in c token (touching now db r).1 ≡ grant_in c token db
  touching-grant now (ok principal) db = touched-grant now principal.api_key db
  touching-grant now (err e) db = refl

  pub presented-grant :
      (now : ℕ) (text : Text) (db : Db)
      → grant_in c token (authenticate_api_key c now text db).1 ≡ grant_in c token db
  unfolding authenticate_api_key
  presented-grant now text db =
      touching-grant now
        (of_key now db (find? (λ k. str_eq k.key_hash (c.hash_token text)) db.api_keys)) db
