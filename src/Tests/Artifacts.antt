-- ===== src/Tests/Artifacts.antt =====
-- The theorems on models and objects at concrete inputs.
use perzforge.Prelude.{
  ℕ, zero, suc, ◌-◌, ◌≡◌, refl, true, not, none, some, [], ◌∷◌, codes, filter, length, All, arith,
  ◌==◌, starts_with,
}
use perzforge.Settings.{default_settings}
use perzforge.Http.{err, value_error}
use perzforge.Quota.{storage_mb, current_usage, limit_for, get_or_create_quota, read_redis_counter}
use perzforge.Storage.{model_prefix, list_keys, delete_prefix, size_to_storage_mb}
use perzforge.Storage.Prefixes.{IsFaithful, HasNoSlash, prefix_isolated}
use perzforge.Storage.Deletion.{delete_prefix-exactly}
use perzforge.Registry.{
  OutputFile, Source, find_model, get_owned_model, delete_model, promote_outputs, dir_size_bytes,
}
use perzforge.Registry.Promotion.{
  HasUniqueVersions, promote_outputs-HasUniqueVersions, promote_outputs-no_bytes,
}
use perzforge.Registry.Storing.{IsStored, promote_outputs-IsStored}
use perzforge.Registry.Deleting.{delete_model-gone, delete_model-credits_caller}
use perzforge.Tests.Data.{alice, of_alice, of_root, a_model, an_object, cloud, printing, unary}

abbrev source : Source
source = record { job_id = 8; user_id = 1; job_name = codes "m"; framework = none }

abbrev weights : OutputFile
weights = record { relative = codes "w"; size = 3 }

abbrev marker : OutputFile
marker = record { relative = codes "DONE"; size = 0 }

promote_outputs-IsStored_example :
    IsStored 90000 source (weights ∷ marker ∷ []) cloud (
      promote_outputs default_settings printing 90000 6 source (some (weights ∷ marker ∷ [])) cloud)
unfolding dir_size_bytes size_to_storage_mb current_usage read_redis_counter limit_for
    get_or_create_quota
promote_outputs-IsStored_example =
    promote_outputs-IsStored default_settings printing 90000 6 source alice cloud weights
      (marker ∷ []) refl (omega arith) (omega arith) (omega arith)

promote_outputs-HasUniqueVersions_example :
    HasUniqueVersions
      (promote_outputs default_settings printing 90000 6 source
        (some (weights ∷ []))
        cloud).1.world.db.models
promote_outputs-HasUniqueVersions_example =
    promote_outputs-HasUniqueVersions default_settings printing 90000 6 source (some (weights ∷ []))
      cloud (tt, tt)

promote_outputs-no_bytes_example :
    promote_outputs default_settings printing 90000 6 source (some (marker ∷ [])) cloud
    ≡ (err (value_error "amount must be >= 1"), cloud)
unfolding dir_size_bytes
promote_outputs-no_bytes_example =
    promote_outputs-no_bytes default_settings printing 90000 6 source marker [] alice cloud refl
      refl

delete_model-gone_example :
    let c' = (delete_model 90000 5 of_alice cloud).1 in
    (find_model 5 c'.world.db ≡ none)
    × (c'.world.db.models ≡ filter (λ m. not (m.id == 5)) cloud.world.db.models)
    × All (λ e. not (e.model_id == 5) ≡ true) c'.world.db.endpoints
    × All (λ o. not (starts_with (codes "models/a/m/1/") o.key) ≡ true) c'.objects
unfolding get_owned_model
delete_model-gone_example = delete_model-gone 90000 5 of_alice cloud a_model refl

delete_model-credits_caller_example :
    let w' = (delete_model 90000 5 of_root cloud).1.world in
    (current_usage w' 1 storage_mb 90000 ≡ current_usage cloud.world 1 storage_mb 90000)
    × (current_usage w' 3 storage_mb 90000
        ≡ current_usage cloud.world 3 storage_mb 90000 - size_to_storage_mb 2000000)
unfolding get_owned_model
delete_model-credits_caller_example =
    delete_model-credits_caller 90000 5 of_root cloud a_model refl (omega arith)

delete_prefix-exactly_example : delete_prefix (codes "models/a/") (an_object ∷ []) ≡ (
  filter (λ o. not (starts_with (codes "models/a/") o.key)) (an_object ∷ []),
  length (list_keys (codes "models/a/") (an_object ∷ [])),
)
delete_prefix-exactly_example = delete_prefix-exactly (codes "models/a/") (an_object ∷ [])

unary-injective : (a b : ℕ) → unary a ≡ unary b → a ≡ b
unary-injective zero zero e = refl
unary-injective zero (suc b) e = cc
unary-injective (suc a) zero e = cc
unary-injective (suc a) (suc b) e = omega (arith, unary-injective a b (ground arith))

unary-HasNoSlash : (a : ℕ) → HasNoSlash (unary a)
unary-HasNoSlash zero = tt
unary-HasNoSlash (suc a) = (refl, unary-HasNoSlash a)

printing-IsFaithful : IsFaithful printing
printing-IsFaithful = record {
  uuid_injective = unary-injective;
  uuid_plain = unary-HasNoSlash;
  decimal_injective = unary-injective;
  decimal_plain = unary-HasNoSlash;
}

prefix_isolated_example : (◌≡◌ {A = ℕ} 2 2) × (codes "m" ≡ codes "m") × (◌≡◌ {A = ℕ} 1 1)
unfolding model_prefix
prefix_isolated_example =
    prefix_isolated printing 2 2 (codes "m") (codes "m") 1 1 (codes "w") printing-IsFaithful
      (refl, tt) (refl, tt) refl
