-- ===== src/Registry.antt =====
-- The model registry: worker/artifacts.py and api/routers/models.py (but for deploying).
pub mod Promotion
pub mod Deleting
pub mod Storing
use perzforge.Prelude.{
  any, ℕ, ◌+◌, ◌≡◌, Bool, true, false, not, ◌&&◌, ◌||◌, Option, none, some, List, [], ◌∷◌, ◌++◌,
  String, concat, Text, text_beq, find?, filter, map, max, ltb, length, ◌==◌, if◌then◌else◌,
}
use perzforge.Settings.{Settings}
use perzforge.Schema.{User, Model, Endpoint, Db, is_admin}
use perzforge.Http.{Result, ok, err, Error, http, quota_exceeded, value_error}
use perzforge.Quota.{World, enforce, release, storage_mb}
use perzforge.Jobs.{Principal}
use perzforge.Pagination.{page}
use perzforge.Storage.{
  Objects, Printing, File, model_prefix, size_to_storage_mb, put_bytes, delete_prefix, list_files,
}

-- The database, the quota counters and the objects of the bucket.
pub record Cloud : Type 0 where
  pub world : World
  pub objects : Objects

-- A file below the outputs directory: its path from there, and its size.
pub record OutputFile : Type 0 where
  pub relative : Text
  pub size : ℕ

unfoldable pub dir_size_bytes : List OutputFile → ℕ
dir_size_bytes [] = 0
dir_size_bytes (f ∷ fs) = f.size + dir_size_bytes fs

abbrev pub is_version_of : ℕ → Text → Model → Bool
is_version_of user_id name m = m.user_id == user_id && text_beq m.name name

-- `func.coalesce(func.max(Model.version), 0)`
unfoldable pub max_version : ℕ → Text → List Model → ℕ
max_version user_id name [] = 0
max_version user_id name (m ∷ ms) =
    let rest = max_version user_id name ms in
    if is_version_of user_id name m then max m.version rest else rest

unfoldable pub next_model_version : ℕ → Text → Db → ℕ
next_model_version user_id name db = max_version user_id name db.models + 1

-- `QuotaExceededError.detail`
unfoldable pub quota_detail : Printing → String → ℕ → ℕ → String
quota_detail str name limit current = concat name (
    concat " quota exceeded ("
      (concat (str.number current) (concat "/" (concat (str.number limit) ")"))))

-- The loop of `put_bytes` over the files.
unfoldable pub upload : Text → List OutputFile → Objects → Objects
upload prefix [] objects = objects
upload prefix (f ∷ fs) objects = upload prefix fs (put_bytes (prefix ++ f.relative) f.size objects)

-- A job whose outputs are promoted.
pub record Source : Type 0 where
  pub job_id : ℕ
  pub user_id : ℕ
  pub job_name : Text
  pub framework : Option String

abbrev pub new_model : Printing → ℕ → ℕ → Source → ℕ → ℕ → Model
new_model str now model_id src version size_bytes = record {
  id = model_id;
  user_id = src.user_id;
  name = src.job_name;
  version = version;
  source_job_id = some src.job_id;
  minio_prefix = model_prefix str src.user_id src.job_name version;
  size_bytes = size_bytes;
  framework = src.framework;
  created_at = now;
}

-- What `promote_outputs` returns: the model and the artifact error. It may raise.
abbrev pub Promoted : Type 0
Promoted = Result (Option Model × Option String)

-- After the quota: upload and add the row.
unfoldable pub store_model : Printing → ℕ → ℕ → Source → List OutputFile → Cloud → Model × Cloud
store_model str now model_id src files c =
    let version = next_model_version src.user_id src.job_name c.world.db in
    let model = new_model str now model_id src version (dir_size_bytes files) in
    let db = record c.world.db { models = c.world.db.models ++ model ∷ [] } in
    (
      model,
      record {
        world = record c.world { db = db };
        objects = upload (model_prefix str src.user_id src.job_name version) files c.objects;
      },
    )

unfoldable pub after_quota :
    Printing
    → ℕ
    → ℕ
    → Source
    → List OutputFile
    → Result (Unit {0}) × World
    → Cloud
    → Promoted × Cloud
after_quota str now model_id src files (ok x, w) c =
    let (model, c') = store_model str now model_id src files (record c { world = w }) in
    (ok (some model, none), c')
after_quota str now model_id src files (err (quota_exceeded name limit current), w) c =
    (ok (none, some (quota_detail str name limit current)), record c { world = w })
after_quota str now model_id src files (err e, w) c = (err e, record c { world = w })

unfoldable pub promote_for :
    Settings → Printing → ℕ → ℕ → Source → List OutputFile → Option User → Cloud → Promoted × Cloud
promote_for s str now model_id src files none c =
    (ok (none, some "user not found for artifact upload"), c)
promote_for s str now model_id src files (some user) c =
    after_quota str now model_id src files
      (enforce s now user storage_mb (size_to_storage_mb (dir_size_bytes files)) c.world) c

-- `none` is an outputs directory that is not there.
unfoldable pub promote_outputs :
    Settings → Printing → ℕ → ℕ → Source → Option (List OutputFile) → Cloud → Promoted × Cloud
promote_outputs s str now model_id src none c = (ok (none, none), c)
promote_outputs s str now model_id src (some []) c = (ok (none, none), c)
promote_outputs s str now model_id src (some (f ∷ fs)) c =
    promote_for s str now model_id src (f ∷ fs) (find? (λ u. u.id == src.user_id) c.world.db.users)
      c

abbrev pub find_model : ℕ → Db → Option Model
find_model model_id db = find? (λ m. m.id == model_id) db.models

abbrev pub model_not_found : Error
model_not_found = http 404 "Model not found"

abbrev pub owned_model : Principal → Option Model → Result Model
owned_model principal none = err model_not_found
owned_model principal (some model) =
    if not (model.user_id == principal.user.id) && not (is_admin principal.user.role)
    then err model_not_found
    else ok model

unfoldable pub get_owned_model : Db → ℕ → Principal → Result Model
get_owned_model db model_id principal = owned_model principal (find_model model_id db)

-- The rows of a page, and the total.
unfoldable pub list_models : ℕ → ℕ → Principal → Db → List Model × ℕ
list_models limit offset principal db =
    let rows = filter (λ m. m.user_id == principal.user.id) db.models in
    (page (λ m. m.created_at) limit offset rows, length rows)

abbrev pub files_found : Result Model → Objects → Result (List File)
files_found (ok model) objects = ok (list_files model.minio_prefix objects)
files_found (err e) objects = err e

-- The files to presign; each URL is made for the file's `full_key`.
unfoldable pub download_model : ℕ → Principal → Cloud → Result (List File)
download_model model_id principal c =
    files_found (get_owned_model c.world.db model_id principal) c.objects

-- DELETE of the row; its endpoints, and their rows of usage, go by ON DELETE CASCADE.
unfoldable pub delete_row : ℕ → Db → Db
delete_row model_id db = record db {
  models = filter (λ m. not (m.id == model_id)) db.models;
  endpoints = filter (λ e. not (e.model_id == model_id)) db.endpoints;
  usage_logs =
      filter (λ l. not (any (λ e. e.model_id == model_id && e.id == l.endpoint_id) db.endpoints))
        db.usage_logs;
}

-- The megabytes go back to the quota of the caller.
unfoldable pub release_storage : ℕ → User → ℕ → World → World
release_storage now user mb w =
    if ltb 0 mb then record w { counters = (release now user storage_mb mb w.counters).1 } else w

unfoldable pub delete_owned : ℕ → Principal → Model → Cloud → Cloud
delete_owned now principal model c =
    let (objects, deleted) = delete_prefix model.minio_prefix c.objects in
    let w = release_storage now principal.user (size_to_storage_mb model.size_bytes) c.world in
    record { world = record w { db = delete_row model.id w.db }; objects = objects }

abbrev pub delete_found : ℕ → Principal → Result Model → Cloud → Result (Unit {0}) × Cloud
delete_found now principal (ok model) c = (ok tt, delete_owned now principal model c)
delete_found now principal (err e) c = (err e, c)

unfoldable pub delete_model : ℕ → ℕ → Principal → Cloud → Result (Unit {0}) × Cloud
delete_model now model_id principal c =
    delete_found now principal (get_owned_model c.world.db model_id principal) c
