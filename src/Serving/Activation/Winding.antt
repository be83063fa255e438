-- ===== src/Serving/Activation/Winding.antt =====
-- What `_mark_failed` and `stop_endpoint_runtime` of api/serving.py leave of an endpoint.
use perzforge.Prelude.{
  ℕ, ◌≡◌, ◌≢◌, refl, ap, ◌∙◌, false, not, Option, none, some, List, find?, filter, ◌==◌,
  find?-update_self, find?-update_ne,
}
use mathlib.Core.Option
use perzforge.Http.{Result, ok}
use perzforge.Schema.{Endpoint}
use perzforge.Serving.Docker.{
  Container, Host, Environment, has_dir, set_containers, stop_runner_container,
  cleanup_artifact_dir,
}
use perzforge.Serving.Activation.{rows_of, find_endpoint, save, stop_container_of, wind_up}
use perzforge.Serving.Activation.Frames.{is_named, IsResponsive, any-filter-not}

abbrev pub row_of : ℕ → Host → Option Endpoint
row_of endpoint_id h = find_endpoint endpoint_id h.cloud.world.db

-- No container and no directory is left of an endpoint.
abbrev pub IsGone : ℕ → Host → Type 0
IsGone endpoint_id h = (is_named endpoint_id h.containers ≡ false) × (has_dir endpoint_id h ≡ false)

-- A row that is saved.
pub saved :
    (f : Endpoint → Endpoint) (e : Endpoint) (h₀ h : Host)
    → ((x : Endpoint) → (f x).id ≡ x.id)
    → row_of e.id h₀ ≡ some e
    → rows_of h ≡ rows_of h₀
    → (row_of e.id (save e.id f h) ≡ some (f e))
      × ((other : ℕ) → e.id ≢ other → row_of other (save e.id f h) ≡ row_of other h₀)
unfolding save
saved f e h₀ h keeps there same = (
  find?-update_self (λ x. x.id) f keeps e.id (rows_of h)
      ∙ ap (λ o. Option.map f o) (ap (λ es. find? (λ x. x.id == e.id) es) same ∙ there),
  λ other apart.
      find?-update_ne (λ x. x.id) f keeps e.id other (rows_of h) apart
      ∙ ap (λ es. find? (λ x. x.id == other) es) same,
)

-- Stopping the container that the row names leaves none of the endpoint.
abbrev pub IsDisposable : ℕ → Option ℕ → Host → Type 0
IsDisposable endpoint_id none h = is_named endpoint_id h.containers ≡ false
IsDisposable endpoint_id (some container_id) h =
    is_named endpoint_id (filter (λ c. not (c.id == container_id)) h.containers) ≡ false

-- What `wind_up` promises.
abbrev pub WoundUp : (Endpoint → Endpoint) → Endpoint → Host → Result Endpoint × Host → Type 0
WoundUp f e h (r, h') =
    (r ≡ ok (f e))
    × (row_of e.id h' ≡ some (f e))
    × ((other : ℕ) → e.id ≢ other → row_of other h' ≡ row_of other h)
    × IsGone e.id h'

module _ (env : Environment) (responsive : IsResponsive env) where
  stop-disposable :
      (endpoint_id : ℕ) (o : Option ℕ) (h : Host)
      → IsDisposable endpoint_id o h
      → (cs : List Container) × (stop_container_of env o h ≡ (ok tt, set_containers cs h))
        × (is_named endpoint_id cs ≡ false)
  unfolding stop_runner_container
  stop-disposable endpoint_id none h free = (h.containers, refl, free)
  stop-disposable endpoint_id (some container_id) h free = (
    filter (λ c. not (c.id == container_id)) h.containers,
    rw (responsive.still_up, responsive.removable container_id) refl,
    free,
  )

  pub wind_up-WoundUp :
      (f : Endpoint → Endpoint) (e : Endpoint) (h : Host)
      → ((x : Endpoint) → (f x).id ≡ x.id)
      → row_of e.id h ≡ some e
      → IsDisposable e.id e.container_id h
      → WoundUp f e h (wind_up env f e h)
  unfolding wind_up cleanup_artifact_dir save
  wind_up-WoundUp f e h keeps there free =
      let (cs, stopping, none_left) = stop-disposable e.id e.container_id h free in
      let (row, others) =
        saved f e h (cleanup_artifact_dir e.id (set_containers cs h)) keeps there refl in
      rw stopping (
        refl,
        row,
        others,
        (none_left, any-filter-not (λ d. d.endpoint_id == e.id) h.artifact_dirs),
      )
