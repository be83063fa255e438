-- ===== src/Serving/Activation/Frames.antt =====
-- What the operations of api/serving.py leave as it was, and what `launch` leaves behind.
use perzforge.Prelude.{
  ℕ, ◌≡◌, ◌≢◌, refl, ap, ◌∙◌, Bool, true, false, not, ◌&&◌, none, some, List, [], ◌∷◌, String,
  find?, filter, any, arith, ◌==◌, ==_refl, Bool-cases, inl, inr,
}
use perzforge.Http.{Result, ok, err, then_run-Post, then_run-test}
use perzforge.Schema.{Endpoint, Model}
use perzforge.Storage.{prefix_has_file}
use perzforge.Serving.Docker.{
  Container, Host, Run, started, not_started, Environment, serve_py, has_dir,
  download_model_artifacts, start_runner_container, run_runner, reached, have_image,
  cleanup_artifact_dir,
}
use perzforge.Serving.Activation.{rows_of, launch}

-- A container under the name of the endpoint.
abbrev pub is_named : ℕ → List Container → Bool
is_named endpoint_id cs = any (λ c. c.endpoint_id == endpoint_id) cs

-- Docker starts what it creates, and answers later calls.
pub record IsResponsive (env : Environment) : Type 0 where
  pub still_up : env.lost ≡ none
  pub removable : (container_id : ℕ) → (env.sees container_id && env.removes container_id) ≡ true
  pub starts :
      (container_id : ℕ) (message : String) → env.run ≢ not_started (some container_id) message

find?-any-none : {A : Type 0} (p : A → Bool) (xs : List A) → any p xs ≡ false → find? p xs ≡ none
find?-any-none p [] h = refl
find?-any-none p (x ∷ xs) h = ground (arith, find?-any-none p xs)

pub any-filter-not :
    {A : Type 0} (p : A → Bool) (xs : List A) → any p (filter (λ x. not (p x)) xs) ≡ false
any-filter-not p [] = refl
any-filter-not p (x ∷ xs) = ground (arith, any-filter-not p xs)

pub any-filter-false :
    {A : Type 0} (p q : A → Bool) (xs : List A) → any p xs ≡ false → any p (filter q xs) ≡ false
any-filter-false p q [] h = refl
any-filter-false p q (x ∷ xs) h = ground (arith, any-filter-false p q xs)

-- What `launch` leaves: the tables, and no container of the endpoint or just the new one.
abbrev pub Launched : ℕ → Host → Result ℕ × Host → Type 0
Launched endpoint_id h (err e, h') =
    (rows_of h' ≡ rows_of h) × (is_named endpoint_id h'.containers ≡ false)
Launched endpoint_id h (ok container_id, h') =
    (rows_of h' ≡ rows_of h)
    × ((others : List Container) × (h'.containers
          ≡ record { id = container_id; endpoint_id = endpoint_id } ∷ others)
        × (is_named endpoint_id others ≡ false))
    × (has_dir endpoint_id h' ≡ true)

-- The same before the container is started.
abbrev Prepared : ℕ → Host → Result (Unit {0}) × Host → Type 0
Prepared endpoint_id h (r, h') =
    (rows_of h' ≡ rows_of h) × (h'.containers ≡ h.containers) × (has_dir endpoint_id h' ≡ true)

download-Prepared :
    (env : Environment) (model : Model) (endpoint_id : ℕ) (h : Host)
    → Prepared endpoint_id h (download_model_artifacts env model endpoint_id h)
unfolding download_model_artifacts cleanup_artifact_dir
download-Prepared env model endpoint_id h = (refl, refl, rw (==_refl endpoint_id) refl)

module _ (env : Environment) (endpoint_id : ℕ) (h : Host) (responsive : IsResponsive env) where
  run-Launched :
      (r : Run)
      → env.run ≡ r
      → is_named endpoint_id h.containers ≡ false
      → has_dir endpoint_id h ≡ true
      → Launched endpoint_id h (run_runner r endpoint_id h)
  run-Launched (started id) e free there = (refl, (h.containers, refl, free), there)
  run-Launched (not_started none message) e free there = (refl, free)
  run-Launched (not_started (some id) message) e free there =
      absurd (responsive.starts id message e)

  start-Launched :
      is_named endpoint_id h.containers ≡ false
      → has_dir endpoint_id h ≡ true
      → Launched endpoint_id h (start_runner_container env endpoint_id h)
  unfolding start_runner_container
  start-Launched free there =
      let vacant = find?-any-none (λ c. c.endpoint_id == endpoint_id) h.containers free in
      then_run-test (Launched endpoint_id h) (reached env) h _ (λ e. (refl, free))
        (λ x. rw vacant (
          then_run-test (Launched endpoint_id h) (have_image env) h _ (λ e. (refl, free))
            (λ x. run-Launched env.run refl free there)))

Launched-from :
    (endpoint_id : ℕ) (h h₁ : Host) (m : Result ℕ × Host)
    → rows_of h₁ ≡ rows_of h
    → Launched endpoint_id h₁ m
    → Launched endpoint_id h m
Launched-from endpoint_id h h₁ (err e, h') same (rows, free) = (rows ∙ same, free)
Launched-from endpoint_id h h₁ (ok container_id, h') same (rows, cs, dir) = (rows ∙ same, cs, dir)

-- A launch under a name that no container has.
pub launch-Launched :
    (env : Environment) (endpoint : Endpoint) (model : Model) (h : Host)
    → IsResponsive env
    → is_named endpoint.id h.containers ≡ false
    → Launched endpoint.id h (launch env endpoint model h)
unfolding launch
launch-Launched env endpoint model h responsive free =
    elim (Bool-cases (prefix_has_file model.minio_prefix serve_py h.cloud.objects)) [
      | inr missing ↦ rw missing (refl, free)
      | inl complete ↦ rw complete (
          then_run-Post (Prepared endpoint.id h) (Launched endpoint.id h)
            (download_model_artifacts env model endpoint.id h) _
            (download-Prepared env model endpoint.id h)
            (λ e w ready. (ready.0, ap (λ cs. is_named endpoint.id cs) ready.1 ∙ free))
            (λ x w ready.
              Launched-from endpoint.id h w (start_runner_container env endpoint.id w) ready.0 (
                start-Launched env endpoint.id w responsive
                  (ap (λ cs. is_named endpoint.id cs) ready.1 ∙ free) ready.2)))
    ]
