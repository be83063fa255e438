-- ===== src/Registry/Deleting.antt =====
-- Deleting a model through `delete_model` of api/routers/models.py: what is gone, and whose quota
-- gets the megabytes back.
use perzforge.Prelude.{
  ℕ, ◌-◌, ◌≤◌, ◌≡◌, ◌≢◌, refl, ◌∙◌, Bool, true, false, not, none, List, [], ◌∷◌, find?, filter, All,
  ltb, arith, Bool-cases, inl, inr, ◌==◌, starts_with,
}
use perzforge.Schema.{User, Model}
use perzforge.Http.{ok}
use perzforge.Quota.{World, release, storage_mb, current_usage, read_redis_counter}
use perzforge.Quota.Counting.{keys_apart}
use perzforge.Quota.Enforce.{usage-release, usage-tables}
use perzforge.Jobs.{Principal}
use perzforge.Pagination.Laws.{All-filter}
use perzforge.Storage.{size_to_storage_mb}
use perzforge.Storage.Deletion.{delete_prefix-exactly}
use perzforge.Registry.{
  Cloud, find_model, get_owned_model, delete_row, release_storage, delete_owned, delete_model,
}

find?-filtered :
    {A : Type 0} (p : A → Bool) (xs : List A) → find? p (filter (λ x. not (p x)) xs) ≡ none
find?-filtered p [] = refl
find?-filtered p (x ∷ xs) = elim (Bool-cases (p x)) [
  | inl hit ↦ rw hit (find?-filtered p xs)
  | inr miss ↦ rw miss (rw miss (find?-filtered p xs))
]

-- The counters of other users do not see a release.
usage-release_other :
    (now : ℕ) (user : User) (other amount : ℕ) (w : World)
    → user.id ≢ other
    → current_usage (release_storage now user amount w) other storage_mb now
      ≡ current_usage w other storage_mb now
unfolding current_usage release_storage release read_redis_counter
usage-release_other now user other amount w apart =
    let missed = keys_apart user.id other storage_mb now now (inl apart) in
    elim (Bool-cases (ltb 0 amount)) [
      | inl some_mb ↦
          let enough : ltb amount 1 ≡ false = ground arith in rw (some_mb, enough, missed) refl
      | inr no_mb ↦ rw no_mb refl
    ]

usage-release_self :
    (now : ℕ) (user : User) (amount : ℕ) (w : World)
    → current_usage (release_storage now user amount w) user.id storage_mb now
      ≡ current_usage w user.id storage_mb now - amount
unfolding release_storage
usage-release_self now user amount w = elim (Bool-cases (ltb 0 amount)) [
  | inl some_mb ↦
      let pos : 1 ≤ amount = ground arith in
      rw some_mb (usage-release now user storage_mb amount w refl pos)
  | inr no_mb ↦ let zero_mb : amount ≡ 0 = ground arith in rw no_mb (omega arith)
]

release_storage-db :
    (now : ℕ) (user : User) (mb : ℕ) (w : World) → (release_storage now user mb w).db ≡ w.db
unfolding release_storage
release_storage-db now user mb w = ground arith

module _ (now model_id : ℕ) (principal : Principal) (c : Cloud) (model : Model) where
  -- Deleting a model that the caller may delete takes away its row, the endpoints that serve it and
  -- every object under its prefix, and leaves the other models.
  pub delete_model-gone :
      get_owned_model c.world.db model_id principal ≡ ok model
      → let c' = (delete_model now model_id principal c).1 in
        (find_model model.id c'.world.db ≡ none)
        × (c'.world.db.models ≡ filter (λ m. not (m.id == model.id)) c.world.db.models)
        × All (λ e. not (e.model_id == model.id) ≡ true) c'.world.db.endpoints
        × All (λ o. not (starts_with model.minio_prefix o.key) ≡ true) c'.objects
  unfolding delete_model delete_owned delete_row
  delete_model-gone owned =
      rw
        (
          owned,
          release_storage-db now principal.user (size_to_storage_mb model.size_bytes) c.world,
          delete_prefix-exactly model.minio_prefix c.objects,
        )
        (
          find?-filtered (λ m. m.id == model.id) c.world.db.models,
          refl,
          All-filter (λ e. not (e.model_id == model.id)) c.world.db.endpoints,
          All-filter (λ o. not (starts_with model.minio_prefix o.key)) c.objects,
        )

  -- Who deletes a model of another user, as an administrator may, gets its megabytes taken off the
  -- own usage, while the usage of the model's owner stays as it was.
  pub delete_model-credits_caller :
      get_owned_model c.world.db model_id principal ≡ ok model
      → principal.user.id ≢ model.user_id
      → let w' = (delete_model now model_id principal c).1.world in
        (current_usage w' model.user_id storage_mb now
          ≡ current_usage c.world model.user_id storage_mb now)
        × (current_usage w' principal.user.id storage_mb now
            ≡ current_usage c.world principal.user.id storage_mb now
              - size_to_storage_mb model.size_bytes)
  unfolding delete_model delete_owned
  delete_model-credits_caller owned apart =
      let mb = size_to_storage_mb model.size_bytes in
      let w = release_storage now principal.user mb c.world in
      rw owned (
        usage-tables w (delete_row model.id w.db) model.user_id now
            ∙ usage-release_other now principal.user model.user_id mb c.world apart,
        usage-tables w (delete_row model.id w.db) principal.user.id now
            ∙ usage-release_self now principal.user mb c.world,
      )
