-- ===== src/Tests/Work.antt =====
-- The theorems on the worker agent at concrete inputs.
use perzforge.Prelude.{
  ℕ, ◌⊎◌, Text, ◌==◌, codes, false, ltb, if◌then◌else◌, ◌≡◌, refl, true, none, some, List, [], ◌∷◌,
  map, count, arith,
}
use perzforge.Settings.{default_settings}
use perzforge.Schema.{Db}
use perzforge.Jobs.{find_job, cancel_job, submit_job, SubmitJobRequest, Platform}
use perzforge.Registry.{Source}
use perzforge.Worker.{Machine, reap_zombie_jobs, apply_container_result}
use perzforge.Worker.Agent.{Turn, source_of, run_turns}
use perzforge.Worker.Lock.Exclusion.{Attempt, Wire, sets, gets, expires, deletes}
use perzforge.Worker.Overrun.{run_turns-overrun}
use perzforge.Worker.Outcomes.{
  final_status, final_event, has_short_texts, IsWritten, IsCrashed, apply_container_result-row,
}
use perzforge.Worker.Reaping.{reaped, is_zombie, reap_zombie_jobs-exactly}
use perzforge.Worker.Lifecycle.{Site, Steps, submits, cancels, restarts, done, further}
use perzforge.Worker.Lifecycle.Forever.{ended_forever}
use perzforge.Worker.Container.{
  Course, Node, started, runs, stands, follow_logs, wait_for_container, run_container,
}
use perzforge.Worker.Container.Ending.{EndsWaiting, IsOver, run_container-IsOver}
use perzforge.Worker.Listener.{Message, Poll, cancel_command_message}
use perzforge.Logs.{LogCollector, append}
use perzforge.Worker.Container.Following.{follow_logs-append}
use perzforge.Tests.Data.{
  of_alice, spec, db, platform, machine, outside, printing, good_run, ended_job, running_job,
}

abbrev start : Site
start = record { db = db; current = none }

abbrev body : SubmitJobRequest
body = record { name = codes "next"; spec = spec }

-- A submission, refused since user 1 has two active jobs; then one of them is cancelled, before the
-- agent comes back.
abbrev after_submit : Db
after_submit = (submit_job default_settings 25 11 none body of_alice platform).1.world.db

abbrev later : Platform
later = record platform { world = record platform.world { db = after_submit } }

abbrev after_cancel : Db
after_cancel = (cancel_job default_settings 30 8 of_alice later).1.world.db

abbrev after_restart : Site
after_restart = record { db = (reap_zombie_jobs 40 "node" after_cancel).1; current = none }

abbrev a_run : Steps "node" start after_restart
a_run = further (submits default_settings 25 11 none body of_alice platform refl) (
    further (cancels default_settings 30 8 of_alice later)
      (further (restarts 40 after_cancel) done))

ended_forever_example : find_job 7 after_restart.db ≡ some ended_job
ended_forever_example = ended_forever "node" start after_restart 7 ended_job a_run tt refl refl

apply_container_result-row_example :
    let m' =
      apply_container_result default_settings printing outside 50 6
        (source_of running_job)
        good_run
        machine in
    ((has_short_texts default_settings printing outside 50 6
          (source_of running_job)
          good_run
          machine
        ≡ true)
      × IsWritten 50 9 (final_status good_run) (final_event good_run) machine m')
    ⊎ ((has_short_texts default_settings printing outside 50 6
            (source_of running_job)
            good_run
            machine
          ≡ false)
        × IsCrashed 9 running_job machine m')
apply_container_result-row_example =
    apply_container_result-row default_settings printing outside 50 6 (source_of running_job)
      good_run machine running_job refl

reap_zombie_jobs-exactly_example :
    ((reap_zombie_jobs 40 "node" db).1.jobs ≡ map (reaped 40 "node") db.jobs)
    × ((reap_zombie_jobs 40 "node" db).0 ≡ count (is_zombie "node") db.jobs)
    × (count (is_zombie "node") (reap_zombie_jobs 40 "node" db).1.jobs ≡ 0)
reap_zombie_jobs-exactly_example = reap_zombie_jobs-exactly 40 "node" db

-- Another agent tries to take the lock, and to release it; then to refresh it.
abbrev intruders : List Attempt
intruders =
    record { token = "b"; command = sets; at = 20 }
    ∷ record { token = "b"; command = gets; at = 21 }
    ∷ record { token = "b"; command = deletes; at = 22 }
    ∷ []

abbrev late_intruders : List Attempt
late_intruders =
    record { token = "b"; command = gets; at = 28 }
    ∷ record { token = "b"; command = expires; at = 28 }
    ∷ []

abbrev wire : Wire
wire = record { key = some ("a", 30); pending = [] }

-- A job of a minute, and the turn after it.
abbrev long_turn : Turn
long_turn = record { refreshed_at = 0; item = some 8; started_at = 1; ended_at = 61; model_id = 6 }

abbrev next_turn : Turn
next_turn = record { refreshed_at = 61; item = none; started_at = 62; ended_at = 62; model_id = 7 }

run_turns-overrun_example :
    (run_turns default_settings printing outside "a" "node"
      (long_turn ∷ next_turn ∷ [])
      (some ("a", 30), machine)).1
    ≡ (run_turns default_settings printing outside "a" "node"
        (long_turn ∷ [])
        (some ("a", 30), machine)).1
run_turns-overrun_example =
    run_turns-overrun default_settings printing outside "a" "node" long_turn next_turn []
      (some ("a", 30)) machine (omega arith)

abbrev collector : LogCollector
collector = record { partial = codes "a"; lines = []; channel = []; buffer = [] }

-- Bytes decoded as ASCII.
abbrev ascii : List ℕ → Text
ascii [] = []
ascii (b ∷ bs) = (if b == 10 then b'\n' else b'x') ∷ ascii bs

follow_logs-append_example :
    follow_logs default_settings ascii ((65 ∷ 10 ∷ []) ∷ (66 ∷ []) ∷ (10 ∷ 67 ∷ []) ∷ []) collector
    ≡ append default_settings (codes "x\nx\nx") collector
follow_logs-append_example =
    follow_logs-append default_settings ascii (65 ∷ 10 ∷ []) ((66 ∷ []) ∷ (10 ∷ 67 ∷ []) ∷ [])
      collector

-- A run whose container stands at the look after two seconds, having written a log and a file.
abbrev course : Course
course = record {
  image_failure = none;
  launch = λ env. started;
  is_cancelled = λ now. false;
  look = λ now. if ltb now 2000 then runs else stands;
  takes = λ now. 0;
  exit = some 0;
  exit_error = none;
  stop_error = none;
  chunks = (66 ∷ 10 ∷ []) ∷ [];
  decode = ascii;
  archive = some (record { relative = codes "w.pt"; size = 5 } ∷ []);
  removes_container = true;
  removes_volume = true;
  show = λ t. "";
  show_id = λ n. [];
  spec_error = λ sp. "";
}

abbrev node : Node
node = record { containers = 8 ∷ []; volumes = 8 ∷ [] }

run_container-IsOver_example :
    EndsWaiting course 5000 0 (wait_for_container course 5 0)
    × IsOver 7 (run_container default_settings course 7 spec (codes "old") 5 0 node)
run_container-IsOver_example =
    run_container-IsOver default_settings course 7 spec (refl, refl) (λ env failure e. cc)
      (codes "old") 5 0 node (refl, refl)

-- The task hears nothing for a second and then the command, while a run goes on.
abbrev silence : Poll
silence = record { takes = 1000; message = none }

abbrev message : Message
message = record { kind = codes "message"; payload = cancel_command_message (λ t. t) }

abbrev command : Poll
command = record { takes = 300; message = some message }

-- What it comes to for a job of user 1 that runs.
abbrev source : Source
source = source_of running_job

abbrev busy_machine : Machine
busy_machine = record machine {
  cloud = record machine.cloud {
    world = record machine.cloud.world { db = record db { jobs = running_job ∷ [] } };
  };
}
