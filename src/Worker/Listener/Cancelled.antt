-- ===== src/Worker/Listener/Cancelled.antt =====
-- What a cancel command comes to: the run of the container, the row of the job and its stream.
use perzforge.Prelude.{ℕ, ◌≡◌, some, ◌∷◌}
use perzforge.Settings.{Settings}
use perzforge.Schema.{Job, cancelled}
use perzforge.Jobs.{find_job}
use perzforge.Worker.{Machine, eof_cancelled}

-- A row that is cancelled, and a stream that has ended so.
abbrev pub IsCancelled : ℕ → Machine → Machine → Type 0
IsCancelled job_id m m' =
    ((row : Job) × (find_job job_id m'.cloud.world.db ≡ some row) × (row.status ≡ cancelled))
    × (m'.published ≡ (job_id, eof_cancelled) ∷ m.published)
