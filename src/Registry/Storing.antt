-- ===== src/Registry/Storing.antt =====
-- What a promotion of worker/artifacts.py stores when the quota lets it, and when it does not.
use perzforge.Prelude.{
  ℕ, ◌+◌, ◌≤◌, ◌<◌, subst⁻¹, ◌≡◌, refl, sym, ap, ◌∙◌, true, false, not, ◌||◌, none, some, List, [],
  ◌∷◌, ◌++◌, Text, text_beq, text_beq-eq, text_beq_refl, find?, find?-holds, filter, any, All,
  arith, Bool-cases, inl, inr, ◌==◌,
}
use perzforge.Settings.{Settings}
use perzforge.Schema.{User, Model}
use perzforge.Http.{Result, ok, err}
use perzforge.Quota.{World, enforce, storage_mb, current_usage}
use perzforge.Quota.Enforce.{limit_of, enforce-ok, enforce-usage, enforce-jobs, usage-tables}
use perzforge.Storage.{Objects, Printing, put_bytes, object_exists, size_to_storage_mb}
use perzforge.Registry.{
  Cloud, OutputFile, dir_size_bytes, next_model_version, upload, Source, Promoted, store_model,
  after_quota, promote_for, promote_outputs,
}

any-other_keys :
    (key other : Text) (objects : Objects)
    → text_beq key other ≡ false
    → any (λ o. text_beq o.key other) (filter (λ o. not (text_beq o.key key)) objects)
      ≡ any (λ o. text_beq o.key other) objects
any-other_keys key other [] apart = refl
any-other_keys key other (o ∷ os) apart =
    let ih = any-other_keys key other os apart in
    elim (Bool-cases (text_beq o.key key)) [
      | inl same ↦
          let e : text_beq o.key other ≡ text_beq key other =
            ap (λ (k : Text). text_beq k other) (text_beq-eq o.key key same) in
          rw (same, e, apart, ih) refl
      | inr differs ↦ rw (differs, ih) refl
    ]

-- What was put is there, and what was there still is.
put_bytes-exists :
    (key other : Text) (size : ℕ) (objects : Objects)
    → object_exists other (put_bytes key size objects)
      ≡ (text_beq key other || object_exists other objects)
unfolding object_exists put_bytes
put_bytes-exists key other size objects = elim (Bool-cases (text_beq key other)) [
  | inl same ↦ rw same refl
  | inr differs ↦ rw (differs, any-other_keys key other objects differs) refl
]

upload-keeps :
    (prefix other : Text) (files : List OutputFile) (objects : Objects)
    → object_exists other objects ≡ true
    → object_exists other (upload prefix files objects) ≡ true
unfolding upload
upload-keeps prefix other [] objects h = h
upload-keeps prefix other (f ∷ fs) objects h =
    let key = prefix ++ f.relative in
    upload-keeps prefix other fs (put_bytes key f.size objects)
      (rw (put_bytes-exists key other f.size objects, h) (ground arith))

upload-exists :
    (prefix : Text) (files : List OutputFile) (objects : Objects)
    → All (λ f. object_exists (prefix ++ f.relative) (upload prefix files objects) ≡ true) files
unfolding upload
upload-exists prefix [] objects = tt
upload-exists prefix (f ∷ fs) objects =
    let key = prefix ++ f.relative in
    let put = put_bytes key f.size objects in
    (
      upload-keeps prefix key fs put
          (rw (put_bytes-exists key key f.size objects, text_beq_refl key) refl),
      upload-exists prefix fs put,
    )

-- The megabytes that a promotion asks for.
abbrev megabytes : List OutputFile → ℕ
megabytes files = size_to_storage_mb (dir_size_bytes files)

positive : (files : List OutputFile) → 1 ≤ dir_size_bytes files → 1 ≤ megabytes files
unfolding size_to_storage_mb
positive files bytes = ground arith

-- A model is stored with its files: the new row, the objects, the usage.
abbrev pub IsStored : ℕ → Source → List OutputFile → Cloud → Promoted × Cloud → Type 0
IsStored now src files c (r, c') =
    (model : Model) × (r ≡ ok (some model, none))
    × (c'.world.db.models ≡ c.world.db.models ++ model ∷ [])
    × (model.version ≡ next_model_version src.user_id src.job_name c.world.db)
    × (model.size_bytes ≡ dir_size_bytes files)
    × All (λ f. object_exists (model.minio_prefix ++ f.relative) c'.objects ≡ true) files
    × (current_usage c'.world src.user_id storage_mb now
        ≡ current_usage c.world src.user_id storage_mb now + megabytes files)

module _ (s : Settings) (str : Printing) (now model_id : ℕ) (src : Source) (user : User)
    (c : Cloud) where
  after_quota-IsStored :
      (files : List OutputFile) (r : Result (Unit {0}) × World)
      → r.0 ≡ ok tt
      → r.1.db.models ≡ c.world.db.models
      → current_usage r.1 src.user_id storage_mb now
        ≡ current_usage c.world src.user_id storage_mb now + megabytes files
      → IsStored now src files c (after_quota str now model_id src files r c)
  unfolding after_quota store_model next_model_version
  after_quota-IsStored files (err e, w) good models usage = ground arith
  after_quota-IsStored files (ok x, w) good models usage =
      let stored = store_model str now model_id src files (record c { world = w }) in
      (
        stored.0,
        refl,
        rw models refl,
        rw models refl,
        refl,
        upload-exists stored.0.minio_prefix files c.objects,
        usage-tables w stored.1.world.db src.user_id now ∙ usage,
      )

  found :
      (f : OutputFile) (fs : List OutputFile)
      → find? (λ u. u.id == src.user_id) c.world.db.users ≡ some user
      → promote_outputs s str now model_id src (some (f ∷ fs)) c
        ≡ after_quota str now model_id src
            (f ∷ fs)
            (enforce s now user storage_mb (megabytes (f ∷ fs)) c.world)
            c
  unfolding promote_outputs promote_for
  found f fs there = rw there refl

  -- Outputs of a user who is there, with at least a byte and within the storage quota, are stored: a
  -- row of the next version and of their size is added, every file is an object below the
  -- row's prefix, and the usage grows by the megabytes.
  pub promote_outputs-IsStored :
      (f : OutputFile) (fs : List OutputFile)
      → find? (λ u. u.id == src.user_id) c.world.db.users ≡ some user
      → 0 < s.quota_counter_ttl_seconds
      → 1 ≤ dir_size_bytes (f ∷ fs)
      → current_usage c.world src.user_id storage_mb now + megabytes (f ∷ fs)
        ≤ limit_of s c.world user storage_mb
      → IsStored now src (f ∷ fs) c (promote_outputs s str now model_id src (some (f ∷ fs)) c)
  promote_outputs-IsStored f fs there ttl bytes fits =
      let files : List OutputFile = f ∷ fs in
      let mb = megabytes files in
      let same : user.id ≡ src.user_id =
        ground (arith, find?-holds (λ u. u.id == src.user_id) c.world.db.users user there) in
      let good =
        (enforce-ok s now user storage_mb mb c.world).1 (positive files bytes, simp same fits) in
      let usage = enforce-usage s now user storage_mb mb c.world ttl good in
      subst⁻¹ (IsStored now src files c) (found f fs there) (
        after_quota-IsStored files (enforce s now user storage_mb mb c.world) good
          (enforce-jobs s now user storage_mb mb c.world).1 (simp (sym same) usage))
