-- ===== src/Serving/Reconcile/Rounds.antt =====
-- The rounds of the reconciliation: what each does to the rows and to the directories.
use perzforge.Prelude.{
  ℕ, ◌+◌, ◌≡◌, refl, ap, ◌∙◌, Bool, false, not, ◌&&◌, Option, none, some, List, [], ◌∷◌, filter,
  any, count, update_where, arith, ◌==◌, Bool-cases, inl, inr, if◌then◌else◌,
}
use perzforge.Http.{Result, ok}
use perzforge.Schema.{Endpoint}
use perzforge.Serving.Docker.{
  Container, ArtifactDir, Host, Environment, container_exists, stop_runner_container,
  cleanup_artifact_dir, set_containers,
}
use perzforge.Serving.Activation.{rows_of, save}
use perzforge.Serving.Reconcile.{to_vanished, vanish, reconcile_with, reconcile_loop}

-- The container of a row is found.
abbrev pub is_found : Environment → List Container → Option ℕ → Bool
is_found env cs none = false
is_found env cs (some container_id) = env.sees container_id && any (λ c. c.id == container_id) cs

filter-absent :
    (id : ℕ) (cs : List Container)
    → any (λ c. c.id == id) cs ≡ false
    → filter (λ c. not (c.id == id)) cs ≡ cs
filter-absent id [] h = refl
filter-absent id (c ∷ cs) h = ground (arith, filter-absent id cs)

-- The rows and the directories after the rounds for some rows, of which `gone` have no container.
module _ (gone : Endpoint → Bool) where
  abbrev pub mark : List Endpoint → List Endpoint → List Endpoint
  mark [] rows = rows
  mark (e ∷ es) rows =
      mark es (if gone e then update_where (λ x. x.id == e.id) to_vanished rows else rows)

  abbrev pub sweep : List Endpoint → List ArtifactDir → List ArtifactDir
  sweep [] dirs = dirs
  sweep (e ∷ es) dirs =
      sweep es (if gone e then filter (λ d. not (d.endpoint_id == e.id)) dirs else dirs)

-- The result of rounds.
abbrev pub Rounds : Environment → List Endpoint → ℕ → Host → Result ℕ × Host → Type 0
Rounds env es marked h (r, h') =
    let gone = λ (e : Endpoint). not (is_found env h.containers e.container_id) in
    (r ≡ ok (marked + count gone es))
    × (rows_of h' ≡ mark gone es (rows_of h))
    × (h'.containers ≡ h.containers)
    × (h'.artifact_dirs ≡ sweep gone es h.artifact_dirs)

-- A container that is not found is not stopped.
stop-absent :
    (env : Environment) (container_id : ℕ) (h : Host)
    → env.lost ≡ none
    → is_found env h.containers (some container_id) ≡ false
    → stop_runner_container env container_id h ≡ (ok tt, h)
unfolding stop_runner_container
stop-absent env container_id h up missing =
    rw up (elim (Bool-cases (env.sees container_id && env.removes container_id)) [
      | inr kept ↦ rw kept refl
      | inl removes ↦ rw removes (
          ap (λ cs. (ok tt, set_containers cs h))
            (filter-absent container_id h.containers (ground arith)))
    ])

exists_lem :
    (env : Environment) (container_id : ℕ) (h : Host)
    → env.lost ≡ none
    → container_exists env container_id h ≡ ok (is_found env h.containers (some container_id))
unfolding container_exists
exists_lem env container_id h up = rw up refl

-- One round: a row whose container is found stays.
round_lem :
    (env : Environment) (e : Endpoint) (o : Option ℕ) (h : Host)
    → env.lost ≡ none
    → reconcile_with env e o h ≡ (if is_found env h.containers o then (ok 0, h) else vanish e h)
round_lem env e none h up = refl
round_lem env e (some container_id) h up =
    let looked = exists_lem env container_id h up in
    elim (Bool-cases (is_found env h.containers (some container_id))) [
      | inl found ↦ rw (looked, found) refl
      | inr missing ↦ rw (looked, missing) (rw (stop-absent env container_id h up missing) refl)
    ]

module _ (env : Environment) (up : env.lost ≡ none) where
  pub loop-Rounds :
      (es : List Endpoint) (marked : ℕ) (h : Host)
      → Rounds env es marked h (reconcile_loop env es marked h)
  unfolding reconcile_loop vanish save cleanup_artifact_dir
  loop-Rounds [] marked h = (ap (λ n. ok n) (omega arith), refl, refl, refl)
  loop-Rounds (e ∷ es) marked h =
      let one = round_lem env e e.container_id h up in
      elim (Bool-cases (is_found env h.containers e.container_id)) [
        | inl found ↦
            let (r, rows, cs, dirs) = loop-Rounds es (marked + 0) h in
            rw one (rw found (r ∙ ap (λ n. ok n) (omega arith), rows, cs, dirs))
        | inr missing ↦
            let h₁ = save e.id to_vanished (cleanup_artifact_dir e.id h) in
            let (r, rows, cs, dirs) = loop-Rounds es (marked + 1) h₁ in
            rw one (rw missing (r ∙ ap (λ n. ok n) (omega arith), rows, cs, dirs))
      ]
