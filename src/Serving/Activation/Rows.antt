-- ===== src/Serving/Activation/Rows.antt =====
-- An activation writes to the row of its endpoint only.
use perzforge.Prelude.{
  ℕ, ◌≡◌, refl, ap, ◌∙◌, ◌&&◌, Option, none, some, List, [], ◌∷◌, update_where, find?, arith, ◌==◌,
  Bool-cases, inl, inr, String,
}
use perzforge.Settings.{Settings}
use perzforge.Http.{Result, ok, err, then_run-Post, then_run-test}
use perzforge.Schema.{Endpoint, Model}
use perzforge.Storage.{prefix_has_file}
use perzforge.Serving.Docker.{
  Container, Host, Run, started, not_started, Environment, serve_py, download_model_artifacts,
  start_runner_container, stop_runner_container, still_there, clear_name, run_runner, reached,
  have_image, cleanup_artifact_dir,
}
use perzforge.Serving.Activation.{
  rows_of, save, stop_container_of, wind_up, mark_failed, gate, after_gate, after_launch, launch,
  activate_endpoint, with_container, to_failed, to_live, message_of,
}

-- The rows are those of `h`.
abbrev Keeps : {A : Type 0} → Host → Result A × Host → Type 0
Keeps h m = rows_of m.1 ≡ rows_of h

clear_name-Keeps :
    (env : Environment) (o : Option Container) (h : Host) → Keeps h (clear_name env o h)
clear_name-Keeps env none h = refl
clear_name-Keeps env (some c) h = elim (Bool-cases (env.sees c.id && env.removes c.id)) [
  | inl removed ↦ rw removed refl
  | inr kept ↦ rw kept refl
]

run_runner-Keeps : (r : Run) (endpoint_id : ℕ) (h : Host) → Keeps h (run_runner r endpoint_id h)
run_runner-Keeps (started id) endpoint_id h = refl
run_runner-Keeps (not_started none message) endpoint_id h = refl
run_runner-Keeps (not_started (some id) message) endpoint_id h = refl

start-Keeps :
    (env : Environment) (endpoint_id : ℕ) (h : Host)
    → Keeps h (start_runner_container env endpoint_id h)
unfolding start_runner_container
start-Keeps env endpoint_id h =
    then_run-test (Keeps h) (reached env) h _ (λ e. refl)
      (λ x.
        then_run-Post (Keeps h) (Keeps h)
          (clear_name env (find? (λ c. c.endpoint_id == endpoint_id) h.containers) h) _
          (clear_name-Keeps env (find? (λ c. c.endpoint_id == endpoint_id) h.containers) h)
          (λ e w same. same)
          (λ x w same.
            then_run-test (Keeps h) (have_image env) w _ (λ e. same)
              (λ x. run_runner-Keeps env.run endpoint_id w ∙ same)))

launch-Keeps :
    (env : Environment) (endpoint : Endpoint) (model : Model) (h : Host)
    → Keeps h (launch env endpoint model h)
unfolding launch download_model_artifacts cleanup_artifact_dir
launch-Keeps env endpoint model h =
    elim (Bool-cases (prefix_has_file model.minio_prefix serve_py h.cloud.objects)) [
      | inr missing ↦ rw missing refl
      | inl complete ↦ rw complete (
          then_run-Post (Keeps h) (Keeps h) (download_model_artifacts env model endpoint.id h) _
            refl (λ e w same. same) (λ x w same. start-Keeps env endpoint.id w ∙ same))
    ]

-- The rows are those of `h`, with the row of the endpoint written over by some function.
abbrev pub WritesOnly : ℕ → Host → Host → Type 0
WritesOnly endpoint_id h h' =
    (g : Endpoint → Endpoint) × ((x : Endpoint) → (g x).id ≡ x.id)
    × ((x : Endpoint) → (g x).user_id ≡ x.user_id)
    × (rows_of h' ≡ update_where (λ x. x.id == endpoint_id) g (rows_of h))

update-twice :
    (k : ℕ) (f g : Endpoint → Endpoint) (rows : List Endpoint)
    → ((x : Endpoint) → (g x).id ≡ x.id)
    → update_where (λ x. x.id == k) f (update_where (λ x. x.id == k) g rows)
      ≡ update_where (λ x. x.id == k) (λ x. f (g x)) rows
update-twice k f g [] keeps = refl
update-twice k f g (x ∷ rows) keeps = ground (arith, keeps x, update-twice k f g rows keeps)

update-nothing : (k : ℕ) (rows : List Endpoint) → rows ≡ update_where (λ x. x.id == k) (λ x. x) rows
update-nothing k [] = refl
update-nothing k (x ∷ rows) = ground (arith, update-nothing k rows)

WritesOnly-save :
    (endpoint_id : ℕ) (f : Endpoint → Endpoint) (h h₁ h₂ : Host)
    → ((x : Endpoint) → (f x).id ≡ x.id)
    → ((x : Endpoint) → (f x).user_id ≡ x.user_id)
    → WritesOnly endpoint_id h h₁
    → rows_of h₂ ≡ rows_of h₁
    → WritesOnly endpoint_id h (save endpoint_id f h₂)
unfolding save
WritesOnly-save endpoint_id f h h₁ h₂ ids users (g, ids', users', rows) same = (
  (λ x. f (g x)),
  (λ x. ids (g x) ∙ ids' x),
  (λ x. users (g x) ∙ users' x),
  ap (update_where (λ x. x.id == endpoint_id) f) (same ∙ rows)
      ∙ update-twice endpoint_id f g (rows_of h) ids',
)

stop-Keeps : (env : Environment) (o : Option ℕ) (h : Host) → Keeps h (stop_container_of env o h)
unfolding stop_runner_container
stop-Keeps env none h = refl
stop-Keeps env (some container_id) h =
    then_run-test (Keeps h) (still_there env) h _ (λ e. refl)
      (λ x. elim (Bool-cases (env.sees container_id && env.removes container_id)) [
        | inl removed ↦ rw removed refl
        | inr kept ↦ rw kept refl
      ])

failed-WritesOnly :
    (env : Environment) (endpoint : Endpoint) (message : String) (h h₁ : Host)
    → WritesOnly endpoint.id h h₁
    → WritesOnly endpoint.id h (mark_failed env endpoint message h₁).1
unfolding mark_failed wind_up cleanup_artifact_dir
failed-WritesOnly env endpoint message h h₁ w =
    then_run-Post (Keeps h₁) (λ m. WritesOnly endpoint.id h m.1)
      (stop_container_of env endpoint.container_id h₁) _ (stop-Keeps env endpoint.container_id h₁)
      (λ e w' same. (w.0, w.1, w.2, same ∙ w.3))
      (λ x w' same.
        WritesOnly-save endpoint.id (to_failed message) h h₁ (cleanup_artifact_dir endpoint.id w')
          (λ y. refl) (λ y. refl) w same)

gate-WritesOnly :
    (env : Environment) (endpoint : Endpoint) (verdict : Result (Unit {0})) (h h₁ : Host)
    → WritesOnly endpoint.id h h₁
    → WritesOnly endpoint.id h (after_gate env endpoint verdict h₁).1
gate-WritesOnly env endpoint (ok x) h h₁ w =
    WritesOnly-save endpoint.id to_live h h₁ h₁ (λ y. refl) (λ y. refl) w refl
gate-WritesOnly env endpoint (err e) h h₁ w = failed-WritesOnly env endpoint (message_of e) h h₁ w

after-WritesOnly :
    (s : Settings) (env : Environment) (endpoint : Endpoint) (m : Result ℕ × Host) (h : Host)
    → Keeps h m
    → WritesOnly endpoint.id h (after_launch s env endpoint m).1
after-WritesOnly s env endpoint (err e, h₁) h same =
    failed-WritesOnly env endpoint (message_of e) h h₁
      ((λ x. x), (λ x. refl), (λ x. refl), same ∙ update-nothing endpoint.id (rows_of h))
after-WritesOnly s env endpoint (ok container_id, h₁) h same =
    let h₂ = save endpoint.id (with_container container_id) h₁ in
    gate-WritesOnly env (with_container container_id endpoint) (gate s env container_id h₂) h h₂ (
      WritesOnly-save endpoint.id (with_container container_id) h h h₁ (λ x. refl) (λ x. refl)
        ((λ x. x), (λ x. refl), (λ x. refl), update-nothing endpoint.id (rows_of h)) same)

pub activate_endpoint-WritesOnly :
    (s : Settings) (env : Environment) (endpoint : Endpoint) (model : Model) (h : Host)
    → WritesOnly endpoint.id h (activate_endpoint s env endpoint model h).1
unfolding activate_endpoint
activate_endpoint-WritesOnly s env endpoint model h =
    after-WritesOnly s env endpoint (launch env endpoint model h) h
      (launch-Keeps env endpoint model h)
