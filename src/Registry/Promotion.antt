-- ===== src/Registry/Promotion.antt =====
-- Promoting the outputs of a job: versions, uniqueness, and when nothing is stored.
use perzforge.Prelude.{
  ℕ, ◌+◌, ◌<◌, ◌≡◌, refl, ◌∙◌, Bool, true, false, ◌&&◌, Option, none, some, List, [], ◌∷◌, ◌++◌,
  Text, text_beq, find?, All, All-append, max, arith, ◌==◌, if◌then◌else◌,
}
use perzforge.Settings.{Settings}
use perzforge.Schema.{User, Model}
use perzforge.Http.{
  Result, ok, err, value_error, quota_exceeded, http, integrity_error, serving_error, exception,
}
use perzforge.Quota.{World, enforce, storage_mb}
use perzforge.Quota.Enforce.{enforce-jobs}
use perzforge.Storage.{Printing, size_to_storage_mb}
use perzforge.Registry.{
  Cloud, OutputFile, dir_size_bytes, is_version_of, max_version, next_model_version, Source,
  new_model, store_model, after_quota, promote_for, promote_outputs,
}

-- The same user, name and version: what `uq_models_user_name_version` forbids.
abbrev pub same_version : Model → Model → Bool
same_version m n = (m.user_id == n.user_id && text_beq m.name n.name) && m.version == n.version

abbrev pub HasUniqueVersions : List Model → Type 0
HasUniqueVersions [] = Unit
HasUniqueVersions (m ∷ ms) = All (λ n. same_version m n ≡ false) ms × HasUniqueVersions ms

HasUniqueVersions-append :
    (ms : List Model) (new : Model)
    → HasUniqueVersions ms
    → All (λ m. same_version m new ≡ false) ms
    → HasUniqueVersions (ms ++ new ∷ [])
HasUniqueVersions-append [] new u h = (tt, tt)
HasUniqueVersions-append (m ∷ ms) new u h = (
  All-append (λ n. same_version m n ≡ false) ms (new ∷ []) u.0 (h.0, tt),
  HasUniqueVersions-append ms new u.1 h.1,
)

above_max :
    (b : Bool) (m rest v : ℕ)
    → (if b then max m rest else rest) < v
    → (rest < v) × ((b && m == v) ≡ false)
above_max true m rest v h = ground arith
above_max false m rest v h = (h, refl)

-- Any version above the largest is new.
versions_apart :
    (user_id : ℕ) (name : Text) (ms : List Model) (new : Model)
    → new.user_id ≡ user_id
    → new.name ≡ name
    → max_version user_id name ms < new.version
    → All (λ m. same_version m new ≡ false) ms
unfolding max_version
versions_apart user_id name [] new eu en h = tt
versions_apart user_id name (m ∷ ms) new eu en h =
    let here =
      above_max (is_version_of user_id name m) m.version (max_version user_id name ms) new.version
        h in
    (rw (eu, en) here.1, versions_apart user_id name ms new eu en here.0)

-- The row that a promotion adds keeps the triples unique.
store_model-HasUniqueVersions :
    (str : Printing) (now model_id : ℕ) (src : Source) (files : List OutputFile) (c : Cloud)
    → HasUniqueVersions c.world.db.models
    → HasUniqueVersions (store_model str now model_id src files c).1.world.db.models
unfolding store_model next_model_version
store_model-HasUniqueVersions str now model_id src files c u =
    let version = max_version src.user_id src.job_name c.world.db.models + 1 in
    let new = new_model str now model_id src version (dir_size_bytes files) in
    HasUniqueVersions-append c.world.db.models new u
      (versions_apart src.user_id src.job_name c.world.db.models new refl refl (omega arith))

after_quota-HasUniqueVersions :
    (str : Printing) (now model_id : ℕ) (src : Source) (files : List OutputFile)
    (r : Result (Unit {0}) × World) (c : Cloud)
    → HasUniqueVersions r.1.db.models
    → HasUniqueVersions (after_quota str now model_id src files r c).1.world.db.models
unfolding after_quota
after_quota-HasUniqueVersions str now model_id src files (ok x, w) c u =
    store_model-HasUniqueVersions str now model_id src files (record c { world = w }) u
after_quota-HasUniqueVersions str now model_id src files (err (quota_exceeded n l k), w) c u = u
after_quota-HasUniqueVersions str now model_id src files (err (http n d), w) c u = u
after_quota-HasUniqueVersions str now model_id src files (err (value_error d), w) c u = u
after_quota-HasUniqueVersions str now model_id src files (err (serving_error d), w) c u = u
after_quota-HasUniqueVersions str now model_id src files (err (exception d), w) c u = u
after_quota-HasUniqueVersions str now model_id src files (err integrity_error, w) c u = u

promote_for-HasUniqueVersions :
    (s : Settings) (str : Printing) (now model_id : ℕ) (src : Source) (files : List OutputFile)
    (user : Option User) (c : Cloud)
    → HasUniqueVersions c.world.db.models
    → HasUniqueVersions (promote_for s str now model_id src files user c).1.world.db.models
unfolding promote_for
promote_for-HasUniqueVersions s str now model_id src files none c u = u
promote_for-HasUniqueVersions s str now model_id src files (some user) c u =
    let mb = size_to_storage_mb (dir_size_bytes files) in
    after_quota-HasUniqueVersions str now model_id src files
      (enforce s now user storage_mb mb c.world) c
      (rw (enforce-jobs s now user storage_mb mb c.world).1 u)

-- A promotion, however it ends, keeps the triples of user, name and version unique, so that the
-- constraint of the database never refuses the row.
pub promote_outputs-HasUniqueVersions :
    (s : Settings) (str : Printing) (now model_id : ℕ) (src : Source)
    (outputs : Option (List OutputFile)) (c : Cloud)
    → HasUniqueVersions c.world.db.models
    → HasUniqueVersions (promote_outputs s str now model_id src outputs c).1.world.db.models
unfolding promote_outputs
promote_outputs-HasUniqueVersions s str now model_id src none c u = u
promote_outputs-HasUniqueVersions s str now model_id src (some []) c u = u
promote_outputs-HasUniqueVersions s str now model_id src (some (f ∷ fs)) c u =
    promote_for-HasUniqueVersions s str now model_id src (f ∷ fs)
      (find? (λ u. u.id == src.user_id) c.world.db.users) c u

-- Outputs that hold at least one file but no byte, of a user who is there, raise the ValueError of
-- `enforce` and store nothing.
pub promote_outputs-no_bytes :
    (s : Settings) (str : Printing) (now model_id : ℕ) (src : Source) (f : OutputFile)
    (fs : List OutputFile) (user : User) (c : Cloud)
    → find? (λ u. u.id == src.user_id) c.world.db.users ≡ some user
    → dir_size_bytes (f ∷ fs) ≡ 0
    → promote_outputs s str now model_id src (some (f ∷ fs)) c
      ≡ (err (value_error "amount must be >= 1"), c)
unfolding promote_outputs promote_for after_quota enforce size_to_storage_mb
promote_outputs-no_bytes s str now model_id src f fs user c there empty = rw (there, empty) refl

-- A promotion does not touch the jobs.
pub promote_outputs-jobs :
    (s : Settings) (str : Printing) (now model_id : ℕ) (src : Source)
    (outputs : Option (List OutputFile)) (c : Cloud)
    → (promote_outputs s str now model_id src outputs c).1.world.db.jobs ≡ c.world.db.jobs
unfolding promote_outputs promote_for after_quota store_model
promote_outputs-jobs s str now model_id src none c = refl
promote_outputs-jobs s str now model_id src (some []) c = refl
promote_outputs-jobs s str now model_id src (some (f ∷ fs)) c =
    go (find? (λ u. u.id == src.user_id) c.world.db.users)
  where
    stored :
        (r : Result (Unit {0}) × World)
        → (after_quota str now model_id src (f ∷ fs) r c).1.world.db.jobs ≡ r.1.db.jobs
    stored (ok x, w) = refl
    stored (err (quota_exceeded n l k), w) = refl
    stored (err (http n d), w) = refl
    stored (err (value_error d), w) = refl
    stored (err (serving_error d), w) = refl
    stored (err (exception d), w) = refl
    stored (err integrity_error, w) = refl

    go :
        (user : Option User)
        → (promote_for s str now model_id src (f ∷ fs) user c).1.world.db.jobs ≡ c.world.db.jobs
    go none = refl
    go (some user) =
        let mb = size_to_storage_mb (dir_size_bytes (f ∷ fs)) in
        stored (enforce s now user storage_mb mb c.world)
        ∙ (enforce-jobs s now user storage_mb mb c.world).0
