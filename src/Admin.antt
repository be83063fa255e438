-- ===== src/Admin.antt =====
-- api/routers/admin.py, api/routers/quotas.py, `usage_snapshot` of api/quotas.py, and
-- scripts/create_admin.py: users and their quotas, by administrators.
pub mod Lockout
use perzforge.Prelude.{
  ℕ, Bool, true, false, not, ◌&&◌, ◌||◌, Option, none, some, List, [], ◌∷◌, ◌++◌, String, Text,
  find?, filter, update_where, str_eq, length, is_some, map, any, ◌==◌, if◌then◌else◌,
}
use perzforge.Settings.{Settings}
use perzforge.Schema.{User, UserRole, Quota, Db, is_admin}
use perzforge.Http.{Result, ok, err, Error, http, integrity_error, exception}
use perzforge.Quota.{
  World, QuotaResource, concurrent_jobs, jobs_per_day, storage_mb, instances, llm_tokens_per_day,
  live_endpoints, quota_limit_name, limit_for, current_usage, get_or_create_quota,
}
use perzforge.Auth.{Crypto, find_user}
use perzforge.Pagination.{page}

abbrev pub user_with_email : String → Db → Option User
user_with_email email db = find? (λ u. str_eq u.email email) db.users

abbrev pub set_users : List User → Db → Db
set_users users db = record db { users = users }

abbrev pub new_user : Crypto → ℕ → ℕ → String → UserRole → String → User
new_user c now user_id email role temporary_password = record {
  id = user_id;
  email = email;
  password_hash = c.hash_password temporary_password;
  role = role;
  must_change_password = true;
  disabled = false;
  created_at = now;
}

-- The email is in lower case; the password and the row's identifier are given.
unfoldable pub create_user :
    Crypto → ℕ → ℕ → String → UserRole → String → Db → Result (User × String) × Db
create_user c now user_id email role temporary_password db =
    if is_some (user_with_email email db)
    then (err (http 409 "Email already registered"), db)
    else (
      ok (new_user c now user_id email role temporary_password, temporary_password),
      set_users (db.users ++ new_user c now user_id email role temporary_password ∷ []) db,
    )

unfoldable pub list_users : ℕ → ℕ → Db → List User × ℕ
list_users limit offset db = (page (λ u. u.created_at) limit offset db.users, length db.users)

abbrev pub disabled_user : User → User
disabled_user u = record u { disabled = true }

abbrev pub disable_found : ℕ → Option User → Db → Result (Unit {0}) × Db
disable_found user_id none db = (err (http 404 "User not found"), db)
disable_found user_id (some user) db =
    (ok tt, set_users (update_where (λ u. u.id == user_id) disabled_user db.users) db)

unfoldable pub disable_user : ℕ → User → Db → Result (Unit {0}) × Db
disable_user user_id admin db =
    if user_id == admin.id
    then (err (http 409 "Admins cannot disable their own account"), db)
    else disable_found user_id (find_user user_id db) db

-- scripts/create_admin.py: what it returns. `scalar_one_or_none` raises if there are several.
abbrev pub first_admin : Crypto → ℕ → ℕ → String → String → Db → Result ℕ × Db
first_admin c now user_id email password db =
    if is_some (user_with_email email db) then (ok 1, db) else (
      ok 0,
      set_users
          (db.users
            ++ record (new_user c now user_id email UserRole.admin password) {
              must_change_password = false;
            }
              ∷ [])
          db,
    )

abbrev pub with_admins : Crypto → ℕ → ℕ → String → String → List User → Db → Result ℕ × Db
with_admins c now user_id email password [] db = first_admin c now user_id email password db
with_admins c now user_id email password (a ∷ []) db = (ok 0, db)
with_admins c now user_id email password (a ∷ b ∷ admins) db =
    (err (exception "MultipleResultsFound"), db)

-- The email is stripped and in lower case.
unfoldable pub create_admin : Crypto → ℕ → ℕ → String → String → Db → Result ℕ × Db
create_admin c now user_id email password db =
    if str_eq email "" || str_eq password ""
    then (ok 1, db)
    else with_admins c now user_id email password (filter (λ u. is_admin u.role) db.users) db

-- The loop over QuotaResource: the name of the limit, the limit and the usage.
abbrev pub snapshot_entry : Quota → World → ℕ → ℕ → QuotaResource → String × ℕ × ℕ
snapshot_entry quota w user_id now resource =
    (quota_limit_name resource, limit_for quota resource, current_usage w user_id resource now)

unfoldable pub usage_snapshot : Settings → ℕ → User → World → List (String × ℕ × ℕ) × World
usage_snapshot s now user w =
    let (quota, db) = get_or_create_quota s user w.db in
    let w' : World = record w { db = db } in
    (
      map (snapshot_entry quota w' user.id now) (
          concurrent_jobs ∷ jobs_per_day ∷ storage_mb ∷ instances ∷ llm_tokens_per_day
          ∷ live_endpoints ∷ []),
      w',
    )

-- The limits, and the usage.
unfoldable pub get_my_quota : Settings → ℕ → User → World → (Quota × List (String × ℕ × ℕ)) × World
get_my_quota s now user w =
    let (usage, w') = usage_snapshot s now user w in
    let (quota, db) = get_or_create_quota s user w'.db in ((quota, usage), record w' { db = db })

-- A field of a request: left out, null, or a number.
pub data Field : Type 0 where
  unset null : Field
  number : ℕ → Field

pub record PatchQuotaRequest : Type 0 where
  pub max_concurrent_jobs : Field
  pub max_jobs_per_day : Field
  pub max_storage_mb : Field
  pub max_instances : Field
  pub max_llm_tokens_per_day : Field
  pub max_live_endpoints : Field

abbrev pub fields_of : PatchQuotaRequest → List Field
fields_of body =
    body.max_concurrent_jobs ∷ body.max_jobs_per_day ∷ body.max_storage_mb ∷ body.max_instances
    ∷ body.max_llm_tokens_per_day ∷ body.max_live_endpoints ∷ []

abbrev pub is_set : Field → Bool
is_set unset = false
is_set _ = true

abbrev pub is_null : Field → Bool
is_null null = true
is_null _ = false

abbrev pub or_old : Field → ℕ → ℕ
or_old (number value) old = value
or_old _ old = old

abbrev pub patched : PatchQuotaRequest → Quota → Quota
patched body q = record q {
  max_concurrent_jobs = or_old body.max_concurrent_jobs q.max_concurrent_jobs;
  max_jobs_per_day = or_old body.max_jobs_per_day q.max_jobs_per_day;
  max_storage_mb = or_old body.max_storage_mb q.max_storage_mb;
  max_instances = or_old body.max_instances q.max_instances;
  max_llm_tokens_per_day = or_old body.max_llm_tokens_per_day q.max_llm_tokens_per_day;
  max_live_endpoints = or_old body.max_live_endpoints q.max_live_endpoints;
}

-- The columns take no null.
abbrev pub patch_found : Settings → PatchQuotaRequest → Option User → Db → Result Quota × Db
patch_found s body none db = (err (http 404 "User not found"), db)
patch_found s body (some target) db =
    if not (any is_set (fields_of body))
    then (err (http 422 "No quota fields provided"), db)
    else if any is_null (fields_of body)
    then (err integrity_error, (get_or_create_quota s target db).1)
    else (let (quota, db') = get_or_create_quota s target db in
        (
          ok (patched body quota),
          record db' {
            quotas = update_where (λ q. q.user_id == target.id) (patched body) db'.quotas;
          },
        ))

unfoldable pub patch_user_quota : Settings → PatchQuotaRequest → ℕ → Db → Result Quota × Db
patch_user_quota s body user_id db = patch_found s body (find_user user_id db) db
