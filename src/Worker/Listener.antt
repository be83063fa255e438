-- ===== src/Worker/Listener.antt =====
-- worker/cancel_listener.py and api/job_control.py: the task that hears a cancel command for the job
-- whose container runs, and sets the event that the wait for the container looks at. JSON is decoded
-- and printed by parameters. Times are in milliseconds, and a `get_message` that raises is left out.
pub mod Promptness
pub mod Cancelled
use perzforge.Prelude.{
  ℕ, ◌+◌, Bool, false, ◌&&◌, Option, none, some, List, [], ◌∷◌, Text, codes, text_beq, leb, ◌==◌,
  if◌then◌else◌,
}
use perzforge.Worker.Container.{Course}

-- `data.get("cmd")`, if the payload is JSON for an object that has a text there.
abbrev pub Command : Type 0
Command = Text → Option Text

unfoldable pub parse_cancel_command : Command → Text → Bool
parse_cancel_command cmd_of payload = elim (cmd_of payload) [
  | none ↦ false
  | some cmd ↦ text_beq cmd (codes "cancel")
]

-- `json.dumps({"cmd": CANCEL_COMMAND})`, by what prints an object with that key.
unfoldable pub cancel_command_message : (Text → Text) → Text
cancel_command_message dumps = dumps (codes "cancel")

-- A message of the channel: its "type", and its "data" as a text.
pub record Message : Type 0 where
  pub kind : Text
  pub payload : Text

-- What `get_message` returns, and after how long.
pub record Poll : Type 0 where
  pub takes : ℕ
  pub message : Option Message

abbrev pub is_command : Command → Option Message → Bool
is_command cmd_of none = false
is_command cmd_of (some m) =
    text_beq m.kind (codes "message") && parse_cancel_command cmd_of m.payload

-- The time at which the event is set, over the polls until the task is cancelled; nothing else sets
-- the event before that.
unfoldable pub watch_for_cancel : Command → ℕ → List Poll → Option ℕ
watch_for_cancel cmd_of now [] = none
watch_for_cancel cmd_of now (p ∷ ps) =
    let rest = watch_for_cancel cmd_of (now + p.takes) ps in
    if is_command cmd_of p.message then some (now + p.takes) else rest

abbrev pub event_is_set : Option ℕ → ℕ → Bool
event_is_set none now = false
event_is_set (some at) now = leb at now

-- A run of the container whose event is the one that the task sets.
abbrev pub heard : Command → ℕ → List Poll → Course → Course
heard cmd_of start polls c = record c {
  is_cancelled = event_is_set (watch_for_cancel cmd_of start polls);
}
