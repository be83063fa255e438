-- ===== src/Worker/Listener/Promptness.antt =====
-- How soon a cancel command ends the wait for a container.
use perzforge.Prelude.{
  ℕ, zero, suc, ◌+◌, ◌*◌, ◌≤◌, ◌<◌, ◌≡◌, ◌⊎◌, inl, inr, refl, sym, ◌∙◌, true, false, Option, none,
  some, List, [], ◌∷◌, ◌++◌, Text, codes, leb, arith, Bool-cases,
}
use perzforge.Worker.Container.{Course, Waited, called_off, stopping, next_look, wait_for_container}
use perzforge.Worker.Container.Ending.{look_time, goes_on, verdict, wait-EndsWaiting}
use perzforge.Worker.Listener.{
  Command, parse_cancel_command, cancel_command_message, Message, Poll, is_command,
  watch_for_cancel, heard,
}

-- The time after some polls.
abbrev pub clock : ℕ → List Poll → ℕ
clock now [] = now
clock now (p ∷ ps) = clock (now + p.takes) ps

clock_grows : (now : ℕ) (ps : List Poll) → now ≤ clock now ps
clock_grows now [] = omega arith
clock_grows now (p ∷ ps) = let later = clock_grows (now + p.takes) ps in omega arith

-- The event is set by the time of a command.
abbrev SetBy : ℕ → Option ℕ → Type 0
SetBy t out = (at : ℕ) × (out ≡ some at) × (at ≤ t)

watch-SetBy :
    (cmd_of : Command) (now : ℕ) (before : List Poll) (p : Poll) (after : List Poll)
    → is_command cmd_of p.message ≡ true
    → SetBy (clock now before + p.takes) (watch_for_cancel cmd_of now (before ++ p ∷ after))
unfolding watch_for_cancel
watch-SetBy cmd_of now [] p after command = (now + p.takes, rw command refl, omega arith)
watch-SetBy cmd_of now (q ∷ before) p after command =
    elim (Bool-cases (is_command cmd_of q.message)) [
      | inl first ↦
          let later = clock_grows (now + q.takes) before in
          (now + q.takes, rw first refl, omega arith)
      | inr other ↦ rw other (watch-SetBy cmd_of (now + q.takes) before p after command)
    ]

look_time-suc :
    (c : Course) (deadline n now : ℕ)
    → look_time c deadline (suc n) now ≡ next_look c deadline (look_time c deadline n now)
look_time-suc c deadline zero now = refl
look_time-suc c deadline (suc n) now = look_time-suc c deadline n (next_look c deadline now)

-- A look at which the wait goes on is before the event is set.
goes_on-unset :
    (c : Course) (deadline u : ℕ) → goes_on c deadline u ≡ true → c.is_cancelled u ≡ false
goes_on-unset c deadline u on = ground arith

unset-before : (at u t : ℕ) → leb at u ≡ false → at ≤ t → u < t
unset-before at u t unset by = ground arith

-- The time of the last look.
last_soon :
    (c : Course) (deadline now at t slow n : ℕ)
    → ((u : ℕ) → c.is_cancelled u ≡ leb at u)
    → ((u : ℕ) → c.takes u ≤ slow)
    → at ≤ t
    → now ≤ t
    → ((k : ℕ) → k < n → goes_on c deadline (look_time c deadline k now) ≡ true)
    → look_time c deadline n now ≤ t + slow + 1000
last_soon c deadline now at t slow zero event quick by start on = omega arith
last_soon c deadline now at t slow (suc n) event quick by start on =
    let u = look_time c deadline n now in
    let unset = sym (event u) ∙ goes_on-unset c deadline u (on n (omega arith)) in
    let early = quick u in rw (look_time-suc c deadline n now) (ground arith)

-- What the wait comes to at a look at which the event is set.
set_lem :
    (c : Course) (deadline u : ℕ)
    → c.is_cancelled u ≡ true
    → verdict c deadline u ≡ stopping c called_off
set_lem c deadline u set = rw set refl

command_lem :
    (cmd_of : Command) (dumps : Text → Text) (m : Message)
    → cmd_of (dumps (codes "cancel")) ≡ some (codes "cancel")
    → m.kind ≡ codes "message"
    → m.payload ≡ cancel_command_message dumps
    → is_command cmd_of (some m) ≡ true
unfolding parse_cancel_command cancel_command_message
command_lem cmd_of dumps m faithful kind sent = rw (kind, sent, parse_cancel_command, faithful) refl

-- The wait ends at a look no later than some time, and, unless it has ended before the command,
-- with the container called off.
abbrev pub IsPrompt : Course → ℕ → ℕ → ℕ → Option Waited → Type 0
IsPrompt c deadline t limit out =
    (u : ℕ) × (out ≡ some (verdict c deadline u))
    × (u ≤ limit)
    × ((u < t) ⊎ (out ≡ some called_off))

module _ (cmd_of : Command) (dumps : Text → Text)
    (faithful : cmd_of (dumps (codes "cancel")) ≡ some (codes "cancel")) where
  -- A cancel command that reaches the task while it listens, and no earlier than the wait for the
  -- container begins, whatever has come before it, where no look takes longer than some time and
  -- the container stops when it is asked to: the wait ends at a look no later than that time and a
  -- second after the command has come, and unless that look is before the command, it ends with the
  -- container called off.
  pub watch_for_cancel-IsPrompt :
      (c : Course) (slow timeout_seconds now start : ℕ) (before after : List Poll) (p : Poll)
      (m : Message)
      → p.message ≡ some m
      → m.kind ≡ codes "message"
      → m.payload ≡ cancel_command_message dumps
      → ((u : ℕ) → c.takes u ≤ slow)
      → c.stop_error ≡ none
      → now ≤ clock start before + p.takes
      → let c' = heard cmd_of start (before ++ p ∷ after) c in
        let t = clock start before + p.takes in
        IsPrompt c'
          (now + 1000 * timeout_seconds)
          t
          (t + slow + 1000)
          (wait_for_container c' timeout_seconds now)
  watch_for_cancel-IsPrompt c slow timeout_seconds now start before after p m has kind sent quick
        stops begun =
      let c' = heard cmd_of start (before ++ p ∷ after) c in
      let deadline = now + 1000 * timeout_seconds in
      let (at, set, by) =
        watch-SetBy cmd_of start before p after
          (rw has (command_lem cmd_of dumps m faithful kind sent)) in
      let (n, on, over, e) = wait-EndsWaiting c' timeout_seconds now in
      let event : (v : ℕ) → c'.is_cancelled v ≡ leb at v = λ v. rw set refl in
      let u = look_time c' deadline n now in
      (
        u,
        e,
        last_soon c' deadline now at _ slow n event quick by begun on,
        elim (Bool-cases (c'.is_cancelled u)) [
          | inl off ↦ inr (e ∙ rw (set_lem c' deadline u off, stops) refl)
          | inr on ↦ inl (unset-before at u _ (sym (event u) ∙ on) by)
        ],
      )
