-- ===== src/Auth/Current.antt =====
-- Who gets past `get_current_user` of api/deps.py.
use perzforge.Prelude.{
  ℕ, ◌≡◌, ap, ◌∙◌, false, Option, none, some, Text, find?-holds, ==_iff, ◌==◌, Bool-cases, inl, inr,
}
use perzforge.Schema.{User, Db}
use perzforge.Http.{Result, ok, err, ◌>>=◌}
use perzforge.Jobs.{Principal}
use perzforge.RateLimit.Identity.{is_api_key_token}
use perzforge.Auth.{
  Crypto, find_user, authenticate_jwt, get_authenticated_user, get_current_user, user_of,
  reject_password_change_required,
}
use perzforge.Auth.Access.{IsAuthentic, Holds, Holds-ok, of_payload-Holds}

-- A user of the table who is not disabled.
abbrev pub IsCurrent : Db → User → Type 0
IsCurrent db user = (find_user user.id db ≡ some user) × (user.disabled ≡ false)

authentic-IsCurrent :
    (now : ℕ) (db : Db) (principal : Principal)
    → IsAuthentic now db principal
    → IsCurrent db principal.user
authentic-IsCurrent now db principal ((user_id, there), enabled, key) =
    let same =
      (==_iff principal.user.id user_id).0
        (find?-holds (λ u. u.id == user_id) db.users principal.user there) in
    (ap (λ k. find_user k db) same ∙ there, enabled)

session-Holds :
    (c : Crypto) (now : ℕ) (credentials : Option Text) (db : Db)
    → Holds (IsAuthentic now db) (get_authenticated_user c now credentials db)
unfolding get_authenticated_user authenticate_jwt
session-Holds c now none db = tt
session-Holds c now (some token) db = elim (Bool-cases (is_api_key_token token)) [
  | inl key ↦ rw key tt
  | inr session ↦ rw session (of_payload-Holds now db c (c.decode_access_token now token))
]

rejecting-Holds :
    (now : ℕ) (db : Db) (r : Result Principal)
    → Holds (IsAuthentic now db) r
    → Holds (IsCurrent db) (r >>= λ principal. user_of (reject_password_change_required principal))
rejecting-Holds now db (err e) h = tt
rejecting-Holds now db (ok principal) h = elim (Bool-cases principal.user.must_change_password) [
  | inl must ↦ rw must tt
  | inr free ↦ simp free (authentic-IsCurrent now db principal h)
]

pub get_current_user-IsCurrent :
    (c : Crypto) (now : ℕ) (credentials : Option Text) (db : Db) (user : User)
    → get_current_user c now credentials db ≡ ok user
    → IsCurrent db user
unfolding get_current_user
get_current_user-IsCurrent c now credentials db user e =
    Holds-ok (IsCurrent db) (get_current_user c now credentials db) user
      (rejecting-Holds now db (get_authenticated_user c now credentials db)
        (session-Holds c now credentials db))
      e
