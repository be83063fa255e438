-- ===== src/Serving/Reconcile.antt =====
-- `reconcile_vanished_containers` of api/serving.py, which runs when the API starts.
pub mod Rounds
pub mod Marking
pub mod Exactly
use perzforge.Prelude.{
  ℕ, ◌+◌, Bool, true, false, Option, none, some, List, [], ◌∷◌, filter, if◌then◌else◌,
}
use perzforge.Http.{Result, ok, err, then_run}
use perzforge.Schema.{Endpoint, failed}
use perzforge.Quota.{is_active_endpoint}
use perzforge.Serving.Docker.{
  Host, Environment, container_exists, stop_runner_container, cleanup_artifact_dir,
}
use perzforge.Serving.Activation.{rows_of, set_endpoints, save}

abbrev pub to_vanished : Endpoint → Endpoint
to_vanished e = record e {
  status = failed;
  container_id = none;
  error_message = some "container vanished (reconciled on API startup)";
}

-- The end of a round for a row without a container: it counts.
unfoldable pub vanish : Endpoint → Host → Result ℕ × Host
vanish e h = (ok 1, save e.id to_vanished (cleanup_artifact_dir e.id h))

abbrev pub if_seen : Environment → Endpoint → ℕ → Bool → Host → Result ℕ × Host
if_seen env e container_id true h = (ok 0, h)
if_seen env e container_id false h =
    then_run (stop_runner_container env container_id h) (λ x h₁. vanish e h₁)

-- One round of the loop, and what it adds to `marked`.
abbrev pub reconcile_with : Environment → Endpoint → Option ℕ → Host → Result ℕ × Host
reconcile_with env e none h = vanish e h
reconcile_with env e (some container_id) h =
    then_run (container_exists env container_id h, h)
      (λ seen h₁. if_seen env e container_id seen h₁)

unfoldable pub reconcile_loop : Environment → List Endpoint → ℕ → Host → Result ℕ × Host
reconcile_loop env [] marked h = (ok marked, h)
reconcile_loop env (e ∷ es) marked h =
    then_run (reconcile_with env e e.container_id h) (λ n h₁. reconcile_loop env es (marked + n) h₁)

-- The commit at the end, or the session closed without one.
abbrev pub committed : Host → Result ℕ × Host → Result ℕ × Host
committed h (ok marked, h₁) = (ok marked, h₁)
committed h (err e, h₁) = (err e, set_endpoints (rows_of h) h₁)

unfoldable pub reconcile_vanished_containers : Environment → Host → Result ℕ × Host
reconcile_vanished_containers env h =
    committed h (reconcile_loop env (filter (λ e. is_active_endpoint e.status) (rows_of h)) 0 h)
