-- ===== src/Serving/Activation/Settling.antt =====
-- How an activation ends.
use perzforge.Prelude.{
  ℕ, ◌≡◌, ◌≢◌, ◌⊎◌, refl, ap, ◌∙◌, true, false, not, none, some, List, ◌∷◌, String, find?, filter,
  any, ◌==◌, ==_refl, inl, inr,
}
use perzforge.Settings.{Settings}
use perzforge.Http.{Result, ok, err}
use perzforge.Schema.{Endpoint, live, failed, Model}
use perzforge.Serving.Docker.{Container, Host, Environment, has_dir, is_there}
use perzforge.Serving.Activation.{
  save, to_failed, to_live, with_container, wind_up, mark_failed, gate, after_gate, after_launch,
  launch, activate_endpoint, message_of,
}
use perzforge.Serving.Activation.Frames.{
  is_named, IsResponsive, any-filter-false, Launched, launch-Launched,
}
use perzforge.Serving.Activation.Winding.{
  row_of, IsGone, saved, IsDisposable, WoundUp, wind_up-WoundUp,
}

-- The endpoint is live in a container that is there, or it has failed and nothing is left of it.
abbrev pub IsSettled : Endpoint → Host → Type 0
IsSettled e h =
    ((e.status ≡ live)
      × ((container_id : ℕ) × (e.container_id ≡ some container_id)
          × (is_there container_id h ≡ true)
          × (has_dir e.id h ≡ true)))
    ⊎ ((e.status ≡ failed) × (e.container_id ≡ none) × IsGone e.id h)

-- What an activation promises: it returns the row that it has written, and leaves the others.
abbrev pub Settles : Endpoint → Host → Result Endpoint × Host → Type 0
Settles endpoint h (r, h') =
    (e : Endpoint) × (r ≡ ok e)
    × (e.id ≡ endpoint.id)
    × (row_of e.id h' ≡ some e)
    × ((other : ℕ) → e.id ≢ other → row_of other h' ≡ row_of other h)
    × IsSettled e h'

WoundUp-Settles :
    (e endpoint : Endpoint) (message : String) (h₀ h : Host) (out : Result Endpoint × Host)
    → e.id ≡ endpoint.id
    → ((other : ℕ) → e.id ≢ other → row_of other h ≡ row_of other h₀)
    → WoundUp (to_failed message) e h out
    → Settles endpoint h₀ out
WoundUp-Settles e endpoint message h₀ h (r, h') same base (done, row, others, gone) = (
  to_failed message e,
  done,
  same,
  row,
  (λ other apart. others other apart ∙ base other apart),
  inr (refl, refl, gone),
)

failed-Settles :
    (env : Environment) (e endpoint : Endpoint) (message : String) (h₀ h : Host)
    → IsResponsive env
    → e.id ≡ endpoint.id
    → ((other : ℕ) → e.id ≢ other → row_of other h ≡ row_of other h₀)
    → row_of e.id h ≡ some e
    → IsDisposable e.id e.container_id h
    → Settles endpoint h₀ (mark_failed env e message h)
unfolding mark_failed
failed-Settles env e endpoint message h₀ h responsive same base there free =
    WoundUp-Settles e endpoint message h₀ h (wind_up env (to_failed message) e h) same base
      (wind_up-WoundUp env responsive (to_failed message) e h (λ x. refl) there free)

-- Removing the one container of the endpoint.
vacated :
    (container_id endpoint_id : ℕ) (cs others : List Container)
    → cs ≡ record { id = container_id; endpoint_id = endpoint_id } ∷ others
    → is_named endpoint_id others ≡ false
    → (is_named endpoint_id (filter (λ c. not (c.id == container_id)) cs) ≡ false)
      × (any (λ c. c.id == container_id) cs ≡ true)
vacated container_id endpoint_id cs others e free =
    let others_free =
      any-filter-false (λ c. c.endpoint_id == endpoint_id) (λ c. not (c.id == container_id)) others
        free in
    (
      ap (λ xs. is_named endpoint_id (filter (λ c. not (c.id == container_id)) xs)) e
          ∙ rw (==_refl container_id) others_free,
      ap (λ xs. any (λ c. c.id == container_id) xs) e ∙ rw (==_refl container_id) refl,
    )

module _ (s : Settings) (env : Environment) (responsive : IsResponsive env) (endpoint : Endpoint)
    (h : Host) (there : row_of endpoint.id h ≡ some endpoint)
    (fresh : endpoint.container_id ≡ none) where
  gated :
      (container_id : ℕ) (h₁ : Host) (verdict : Result (Unit {0}))
      → Launched endpoint.id h (ok container_id, h₁)
      → Settles endpoint h (
          after_gate env
            (with_container container_id endpoint)
            verdict
            (save endpoint.id (with_container container_id) h₁))
  unfolding save
  gated container_id h₁ (ok x) (rows, (others, cs, vacant), dir) =
      let held = with_container container_id endpoint in
      let h₂ = save endpoint.id (with_container container_id) h₁ in
      let (row, base) = saved (with_container container_id) endpoint h h₁ (λ x. refl) there rows in
      let (row', others') = saved to_live held h₂ h₂ (λ x. refl) row refl in
      (
        to_live held,
        refl,
        refl,
        row',
        (λ other apart. others' other apart ∙ base other apart),
        inl (
          refl,
          (
            container_id,
            refl,
            (vacated container_id endpoint.id h₁.containers others cs vacant).1,
            dir,
          ),
        ),
      )
  gated container_id h₁ (err e) (rows, (others, cs, vacant), dir) =
      let held = with_container container_id endpoint in
      let (row, base) = saved (with_container container_id) endpoint h h₁ (λ x. refl) there rows in
      failed-Settles env held endpoint (message_of e) h
        (save endpoint.id (with_container container_id) h₁) responsive refl base row
        (vacated container_id endpoint.id h₁.containers others cs vacant).0

  settled :
      (m : Result ℕ × Host)
      → Launched endpoint.id h m
      → Settles endpoint h (after_launch s env endpoint m)
  settled (ok container_id, h₁) l =
      gated container_id h₁
        (gate s env container_id (save endpoint.id (with_container container_id) h₁)) l
  settled (err e, h₁) (rows, vacant) =
      failed-Settles env endpoint endpoint (message_of e) h h₁ responsive refl
        (λ other apart. ap (λ es. find? (λ x. x.id == other) es) rows)
        (ap (λ es. find? (λ x. x.id == endpoint.id) es) rows ∙ there) (rw fresh vacant)

  -- However the activation of an endpoint goes, from the artifacts to the health gate, as long as
  -- Docker answers when a container is to be removed and leaves none that did not start: it returns
  -- the row that it has written, which is LIVE, with its container and its directory there, or
  -- FAILED, with no container and no directory left; the row is not STARTING any more, and the rows
  -- of other endpoints are as they were.
  pub activate_endpoint-Settles :
      (model : Model)
      → is_named endpoint.id h.containers ≡ false
      → Settles endpoint h (activate_endpoint s env endpoint model h)
  unfolding activate_endpoint
  activate_endpoint-Settles model free =
      settled (launch env endpoint model h) (launch-Launched env endpoint model h responsive free)
