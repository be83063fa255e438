-- ===== src/Serving/Reconcile/Exactly.antt =====
-- What the reconciliation of endpoints with Docker does.
use perzforge.Prelude.{Bool, not, ◌&&◌, none, some, if◌then◌else◌}
use perzforge.Schema.{Endpoint, failed}
use perzforge.Quota.{is_active_endpoint}
use perzforge.Serving.Docker.{Host, Environment}
use perzforge.Serving.Reconcile.Rounds.{is_found}

-- A row that is starting or live without its container.
abbrev pub is_vanished : Environment → Host → Endpoint → Bool
is_vanished env h e = is_active_endpoint e.status && not (is_found env h.containers e.container_id)

abbrev pub reconciled : Environment → Host → Endpoint → Endpoint
reconciled env h e =
    if is_vanished env h e
    then record e {
      status = failed;
      container_id = none;
      error_message = some "container vanished (reconciled on API startup)";
    }
    else e
