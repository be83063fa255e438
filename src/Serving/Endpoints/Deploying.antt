-- ===== src/Serving/Endpoints/Deploying.antt =====
-- What `deploy_model` of api/routers/models.py does to the endpoints.
use perzforge.Prelude.{
  ℕ, ◌≤◌, ◌≡◌, subst⁻¹, refl, sym, ap, ◌∙◌, false, ◌&&◌, Option, none, some, List, [], ◌∷◌, ◌++◌,
  Text, find?, any, count, update_where, text_beq, arith, ◌==◌, ==_refl, Bool-cases, inl, inr,
  count-append, update_where-append, update_where-fresh, find?-append_none,
}
use perzforge.Settings.{Settings}
use perzforge.Schema.{Endpoint, Model, Db, User}
use perzforge.Http.{Result, ok, err, then_run}
use perzforge.Quota.{
  World, enforce, live_endpoints, count_live_endpoints, is_active_endpoint, current_usage,
}
use perzforge.Quota.Enforce.{limit_of, enforce-ok, enforce-jobs}
use perzforge.Jobs.{Principal}
use perzforge.Registry.{get_owned_model}
use perzforge.Serving.Docker.{Host, Environment}
use perzforge.Serving.Activation.{rows_of, set_endpoints, activate_endpoint}
use perzforge.Serving.Activation.Frames.{is_named, IsResponsive}
use perzforge.Serving.Activation.Winding.{row_of}
use perzforge.Serving.Activation.Settling.{IsSettled, activate_endpoint-Settles}
use perzforge.Serving.Activation.Rows.{activate_endpoint-WritesOnly}
use perzforge.Serving.Endpoints.{
  new_endpoint, insert_endpoint, add_endpoint, in_world, enforce_live, deploy_model,
}

-- A chain that ended well went through its first step.
then_run-ok :
    {W A B : Type 0} (m : Result A × W) (f : A → W → Result B × W) (b : B)
    → (then_run m f).0 ≡ ok b
    → (a : A) × (m.0 ≡ ok a) × (then_run m f ≡ f a m.1)
then_run-ok (ok a, w) f b h = (a, refl, refl)
then_run-ok (err e, w) f b h = cc

-- What an accepted deployment leaves: the rows that were, and the row that is returned.
abbrev pub IsDeployed : Endpoint → Host → Host → Type 0
IsDeployed e h h' = (rows_of h' ≡ rows_of h ++ e ∷ []) × IsSettled e h'

fresh_row :
    (e : Endpoint) (es : List Endpoint)
    → find? (λ x. x.id == e.id) es ≡ none
    → find? (λ x. x.id == e.id) (es ++ e ∷ []) ≡ some e
fresh_row e es fresh =
    find?-append_none (λ x. x.id == e.id) es (e ∷ []) fresh ∙ rw (==_refl e.id) refl

some-injective : {A : Type 0} {a b : A} → some a ≡ some b → a ≡ b
some-injective e = cc e

ok-injective : {A : Type 0} {a b : A} → ok a ≡ ok b → a ≡ b
ok-injective e = cc e

-- The row that an activation returns is the one that it has written at the end of the table.
written_row :
    (endpoint e' : Endpoint) (g : Endpoint → Endpoint) (rows₀ rows : List Endpoint)
    → find? (λ x. x.id == endpoint.id) rows₀ ≡ none
    → rows ≡ update_where (λ x. x.id == endpoint.id) g (rows₀ ++ endpoint ∷ [])
    → (g endpoint).id ≡ endpoint.id
    → e'.id ≡ endpoint.id
    → find? (λ x. x.id == e'.id) rows ≡ some e'
    → (rows ≡ rows₀ ++ e' ∷ []) × (g endpoint ≡ e')
written_row endpoint e' g rows₀ rows fresh written keeps same row =
    let p = λ (x : Endpoint). x.id == endpoint.id in
    let whole : rows ≡ rows₀ ++ g endpoint ∷ [] =
      written
      ∙ update_where-append p g rows₀ (endpoint ∷ [])
      ∙ rw (update_where-fresh p g rows₀ fresh, ==_refl endpoint.id) refl in
    let found : find? p rows ≡ some (g endpoint) =
      ap (find? p) whole
      ∙ find?-append_none p rows₀ (g endpoint ∷ []) fresh
      ∙ rw keeps (rw (==_refl endpoint.id) refl) in
    let eq =
      some-injective
        (sym found ∙ ap (λ k. find? (λ (x : Endpoint). x.id == k) rows) (sym same) ∙ row) in
    (whole ∙ ap (λ x. rows₀ ++ x ∷ []) eq, eq)

activated :
    (s : Settings) (env : Environment) (endpoint e : Endpoint) (model : Model) (h₀ h : Host)
    → IsResponsive env
    → endpoint.container_id ≡ none
    → is_named endpoint.id h.containers ≡ false
    → find? (λ x. x.id == endpoint.id) (rows_of h₀) ≡ none
    → rows_of h ≡ rows_of h₀ ++ endpoint ∷ []
    → (activate_endpoint s env endpoint model h).0 ≡ ok e
    → (e.id ≡ endpoint.id) × IsDeployed e h₀ (activate_endpoint s env endpoint model h).1
activated s env endpoint e model h₀ h responsive bare free fresh rows done =
    let there =
      ap (λ es. find? (λ x. x.id == endpoint.id) es) rows ∙ fresh_row endpoint (rows_of h₀) fresh in
    let (e', done', same, row, others, fine) =
      activate_endpoint-Settles s env responsive endpoint h there bare model free in
    let (g, ids, users, written) = activate_endpoint-WritesOnly s env endpoint model h in
    let (whole, eq) =
      written_row endpoint e' g (rows_of h₀) (rows_of (activate_endpoint s env endpoint model h).1)
        fresh (written ∙ ap (update_where (λ x. x.id == endpoint.id) g) rows) (ids endpoint) same
        row in
    let same_row = ok-injective (sym done' ∙ done) in
    let h' = (activate_endpoint s env endpoint model h).1 in
    subst⁻¹ (λ x. (x.id ≡ endpoint.id) × IsDeployed x h₀ h') (sym same_row) (same, (whole, fine))

within :
    (s : Settings) (now : ℕ) (user : User) (e : Endpoint) (w : World) (db : Db)
    → (enforce s now user live_endpoints 1 w).0 ≡ ok tt
    → db.endpoints ≡ w.db.endpoints ++ e ∷ []
    → count_live_endpoints db user.id ≤ limit_of s w user live_endpoints
unfolding count_live_endpoints current_usage
within s now user e w db passed added =
    let alive = λ (x : Endpoint). x.user_id == user.id && is_active_endpoint x.status in
    let fits = ((enforce-ok s now user live_endpoints 1 w).0 passed).1 in
    let one : count alive (e ∷ []) ≤ 1 = ground arith in
    rw added (rw (count-append alive w.db.endpoints (e ∷ [])) (omega (arith, one)))

-- A row that is added and activated.
added :
    (s : Settings) (env : Environment) (endpoint e : Endpoint) (model : Model) (h₀ h : Host)
    → IsResponsive env
    → endpoint.container_id ≡ none
    → is_named endpoint.id h.containers ≡ false
    → find? (λ x. x.id == endpoint.id) (rows_of h₀) ≡ none
    → rows_of h ≡ rows_of h₀
    → (add_endpoint s env endpoint model h).0 ≡ ok e
    → (e.id ≡ endpoint.id) × IsDeployed e h₀ (add_endpoint s env endpoint model h).1
unfolding add_endpoint insert_endpoint
added s env endpoint e model h₀ h responsive bare free fresh rows =
    elim (Bool-cases (any (λ e. text_beq e.route endpoint.route) (rows_of h))) [
      | inl taken ↦ rw taken (λ done. cc)
      | inr open_route ↦ rw open_route (
          activated s env endpoint e model h₀ (set_endpoints (rows_of h ++ endpoint ∷ []) h)
            responsive bare free fresh (ap (λ es. es ++ endpoint ∷ []) rows))
    ]

-- An accepted deployment under a fresh id: Docker is taken to answer when a container is to be
-- removed, and to leave none that did not start. It returns the one row that it has added, which is
-- LIVE, with its container and its directory there, or FAILED, with nothing left of it; the other
-- rows are as they were, and the user has no more active endpoints than the limit allows.
pub deploy_model-IsDeployed :
    (s : Settings) (env : Environment) (hex : ℕ → Text) (endpoint_id model_id : ℕ)
    (name : Option Text) (principal : Principal) (e : Endpoint) (h : Host)
    → IsResponsive env
    → row_of endpoint_id h ≡ none
    → is_named endpoint_id h.containers ≡ false
    → (deploy_model s env hex endpoint_id model_id name principal h).0 ≡ ok e
    → let h' = (deploy_model s env hex endpoint_id model_id name principal h).1 in
      ((e.id ≡ endpoint_id) × IsDeployed e h h')
      × (count_live_endpoints h'.cloud.world.db principal.user.id
          ≤ limit_of s h.cloud.world principal.user live_endpoints)
unfolding deploy_model
deploy_model-IsDeployed s env hex endpoint_id model_id name principal e h responsive fresh free
      done =
    let found = get_owned_model h.cloud.world.db model_id principal in
    let quota = enforce_live s env.now principal.user h in
    let h₂ = in_world (enforce s env.now principal.user live_endpoints 1 h.cloud.world).1 h in
    let tables = enforce-jobs s env.now principal.user live_endpoints 1 h.cloud.world in
    let (model, got, went) = then_run-ok (found, h) _ e done in
    let (x, passed, went') = then_run-ok quota _ e (ap (λ m. m.0) (sym went) ∙ done) in
    let endpoint = new_endpoint hex env.now endpoint_id name principal model in
    let whole = went ∙ went' in
    let (same, (rows, fine)) =
      added s env endpoint e model h h₂ responsive refl free fresh tables.2
        (ap (λ m. m.0) (sym whole) ∙ done) in
    subst⁻¹
      (λ m.
        ((e.id ≡ endpoint_id) × IsDeployed e h m.1)
        × (count_live_endpoints m.1.cloud.world.db principal.user.id
            ≤ limit_of s h.cloud.world principal.user live_endpoints))
      whole
      (
        (same, (rows, fine)),
        within s env.now principal.user e h.cloud.world
            (add_endpoint s env endpoint model h₂).1.cloud.world.db passed rows,
      )
