-- ===== src/Auth/Session/Rotation.antt =====
-- The rotation of refresh tokens in api/routers/auth.py.
use perzforge.Prelude.{
  length, codes, leb, ℕ, ◌+◌, ◌≡◌, String, ◌≤◌, ◌<◌, refl, sym, subst⁻¹, ap, ◌∙◌, Bool, true, false,
  not, ◌&&◌, Option, none, some, List, [], ◌∷◌, Text, find?, count, count-append, update_where, leb,
  arith, Bool-cases, inl, inr, ◌==◌,
}
use perzforge.Settings.{Settings}
use perzforge.Schema.{User, RefreshToken, Db}
use perzforge.Http.{ok, err}
use perzforge.Auth.{Crypto, find_user}
use perzforge.Auth.Session.{
  Fresh, find_token, revoke, revoke_token_family, new_token, issue_refresh_token, invalid_refresh,
  refresh_session, revoke_all_refresh_families, with_password, change_password,
}

-- The tokens of a family that are not revoked.
abbrev pub live_tokens : ℕ → Db → ℕ
live_tokens family_id db = count (λ t. t.family_id == family_id && not t.revoked) db.refresh_tokens

none_live :
    (family_id : ℕ) (ts : List RefreshToken)
    → count
        (λ t. t.family_id == family_id && not t.revoked)
        (update_where (λ t. t.family_id == family_id) revoke ts)
      ≡ 0
none_live family_id [] = refl
none_live family_id (t ∷ ts) = let ih = none_live family_id ts in ground arith

revoke-live :
    (p : RefreshToken → Bool) (family_id : ℕ) (ts : List RefreshToken)
    → count (λ t. t.family_id == family_id && not t.revoked) (update_where p revoke ts)
      ≤ count (λ t. t.family_id == family_id && not t.revoked) ts
revoke-live p family_id [] = omega arith
revoke-live p family_id (t ∷ ts) = let ih = revoke-live p family_id ts in ground arith

-- Among a row and those after it, revoking by the identifier takes a live token away.
abbrev LosesOne : RefreshToken → List RefreshToken → RefreshToken → Type 0
LosesOne row ts t =
    count (λ x. x.family_id == row.family_id && not x.revoked)
        (update_where (λ x. x.id == row.id) revoke (t ∷ ts))
      + 1
    ≤ count (λ x. x.family_id == row.family_id && not x.revoked) (t ∷ ts)

head-revoked :
    (row : RefreshToken) (ts : List RefreshToken) → row.revoked ≡ false → LosesOne row ts row
head-revoked row ts live =
    let less = revoke-live (λ x. x.id == row.id) row.family_id ts in ground arith

-- Revoking the row that was found takes one live token away.
revoke_found-live :
    (q : RefreshToken → Bool) (row : RefreshToken) (ts : List RefreshToken)
    → find? q ts ≡ some row
    → row.revoked ≡ false
    → count
          (λ t. t.family_id == row.family_id && not t.revoked)
          (update_where (λ t. t.id == row.id) revoke ts)
        + 1
      ≤ count (λ t. t.family_id == row.family_id && not t.revoked) ts
revoke_found-live q row [] found live = ground arith
revoke_found-live q row (t ∷ ts) found live = elim (Bool-cases (q t)) [
  | inl hit ↦
      let e : some t ≡ some row = sym (rw hit refl) ∙ found in
      let same : t ≡ row = ap (λ (o : Option RefreshToken). elim o [ none ↦ t | some x ↦ x ]) e in
      subst⁻¹ (LosesOne row ts) same (head-revoked row ts live)
  | inr miss ↦
      let later : find? q ts ≡ some row = ground arith in
      let ih = revoke_found-live q row ts later live in
      let here = revoke-live (λ x. x.id == row.id) row.family_id (t ∷ []) in omega (arith, here, ih)
]

-- A token that was used before revokes the whole family it belongs to, and is refused.
pub refresh_session-replayed :
    (s : Settings) (c : Crypto) (now : ℕ) (fresh : Fresh) (x : ℕ) (token : Text) (db : Db)
    (row : RefreshToken)
    → find_token c (x ∷ token) db ≡ some row
    → row.revoked ≡ true
    → ((refresh_session s c now fresh (some (x ∷ token)) db).0 ≡ err invalid_refresh)
      × (live_tokens row.family_id (refresh_session s c now fresh (some (x ∷ token)) db).1 ≡ 0)
unfolding refresh_session revoke_token_family
refresh_session-replayed s c now fresh x token db row found used =
    rw (found, used) (refl, none_live row.family_id db.refresh_tokens)

-- A token that is good gives way to one new token of its family: if the family had one good token at
-- most, it has exactly the new one.
pub refresh_session-rotates :
    (s : Settings) (c : Crypto) (now : ℕ) (fresh : Fresh) (x : ℕ) (token : Text) (db : Db)
    (row : RefreshToken) (user : User)
    → find_token c (x ∷ token) db ≡ some row
    → row.revoked ≡ false
    → now < row.expires_at
    → find_user row.user_id db ≡ some user
    → live_tokens row.family_id db ≤ 1
    → ((refresh_session s c now fresh (some (x ∷ token)) db).0 ≡ ok (fresh.token, user))
      × (live_tokens row.family_id (refresh_session s c now fresh (some (x ∷ token)) db).1 ≡ 1)
unfolding refresh_session issue_refresh_token
refresh_session-rotates s c now fresh x token db row user found live early there one =
    let young : leb row.expires_at now ≡ false = ground arith in
    let lost = revoke_found-live _ row db.refresh_tokens found live in
    let after =
      count-append (λ t. t.family_id == row.family_id && not t.revoked)
        (update_where (λ t. t.id == row.id) revoke db.refresh_tokens)
        (new_token s c now fresh user.id row.family_id ∷ []) in
    let own : count (λ t. t.family_id == row.family_id && not t.revoked)
          (new_token s c now fresh user.id row.family_id ∷ [])
        ≡ 1 =
      ground arith in
    simp (found, live, young, there) (refl, omega (arith, after, lost, one, own))

all_revoked :
    (p : RefreshToken → Bool) (keeps : (t : RefreshToken) → p (revoke t) ≡ p t)
    (ts : List RefreshToken)
    → count (λ t. p t && not t.revoked) (update_where p revoke ts) ≡ 0
all_revoked p keeps [] = refl
all_revoked p keeps (t ∷ ts) = let ih = all_revoked p keeps ts in let kept = keeps t in ground arith

all_changed :
    (id : ℕ) (f : User → User)
    → ((u : User) → (f u).id ≡ u.id)
    → ((u : User) → (f u).must_change_password ≡ false)
    → (us : List User)
    → count (λ u. u.id == id && u.must_change_password) (update_where (λ u. u.id == id) f us) ≡ 0
all_changed id f keeps clears [] = refl
all_changed id f keeps clears (u ∷ us) =
    let ih = all_changed id f keeps clears us in
    let same = keeps u in let clear = clears u in ground arith

-- With the right old password and a new one of at least twelve characters a change of password
-- succeeds, clears the demand for a change, and leaves the user without a good refresh token.
pub change_password-revokes :
    (c : Crypto) (old_password new_password : String) (user : User) (db : Db)
    → c.verify_password old_password user.password_hash ≡ true
    → leb 12 (length (codes new_password)) ≡ true
    → let out = change_password c old_password new_password user db in
      (out.0 ≡ ok tt)
      × (count (λ t. t.user_id == user.id && not t.revoked) out.1.refresh_tokens ≡ 0)
      × (count (λ u. u.id == user.id && u.must_change_password) out.1.users ≡ 0)
unfolding change_password revoke_all_refresh_families
change_password-revokes c old_password new_password user db right long =
    simp (right, long)
      (
        refl,
        all_revoked (λ t. t.user_id == user.id) (λ t. refl) db.refresh_tokens,
        all_changed user.id (with_password c new_password) (λ u. refl) (λ u. refl) db.users,
      )
