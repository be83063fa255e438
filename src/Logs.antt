-- ===== src/Logs.antt =====
-- worker/logs.py: the collector that turns the output of a container into lines, publishes each and
-- keeps the last ones.
pub mod Chunks
use perzforge.Prelude.{
  ℕ, zero, suc, ◌+◌, ◌-◌, Option, none, some, List, [], ◌∷◌, ◌++◌, Text, length, drop, ◌==◌,
  if◌then◌else◌,
}
use perzforge.Settings.{Settings}

-- A LogCollector of a job, with what was published on the job's channel, oldest first, and the
-- replay buffer.
pub record LogCollector : Type 0 where
  pub partial : Text
  pub lines : List Text
  pub channel : List Text
  pub buffer : List Text

-- The collector at the start.
abbrev pub new_collector : LogCollector
new_collector = record { partial = []; lines = []; channel = []; buffer = [] }

-- The last elements, at most so many: `deque(maxlen=n)`.
abbrev pub last_of : {A : Type 0} → ℕ → List A → List A
last_of n xs = drop (length xs - n) xs

-- LTRIM from `-n` to the end, which is from the start if `n` is 0.
abbrev pub trimmed : {A : Type 0} → ℕ → List A → List A
trimmed n xs = if n == 0 then xs else last_of n xs

unfoldable pub publish_line : Settings → Text → LogCollector → LogCollector
publish_line s line c = record c {
  channel = c.channel ++ line ∷ [];
  buffer = trimmed s.job_log_replay_max_lines (c.buffer ++ line ∷ []);
}

-- A whole line: published and kept.
unfoldable pub emit : Settings → Text → LogCollector → LogCollector
emit s line c =
    let c' = publish_line s line c in
    record c' { lines = last_of s.job_log_tail_lines (c'.lines ++ line ∷ []) }

-- `split("\n", 1)`, where there is a line break: the line with its break, and the rest.
unfoldable pub split_line : Text → Option (Text × Text)
split_line [] = none
split_line (c ∷ t) =
    if c == b'\n'
    then some (c ∷ [], t)
    else elim (split_line t) [ none ↦ none | some r ↦ some (c ∷ r.0, r.1) ]

abbrev pub set_partial : LogCollector → Text → LogCollector
set_partial c partial = record c { partial = partial }

-- The loop while there is a line break, on fuel.
unfoldable pub append_loop : Settings → ℕ → LogCollector → LogCollector
append_loop s zero c = c
append_loop s (suc fuel) c = elim (split_line c.partial) [
  | none ↦ c
  | some r ↦ append_loop s fuel (emit s r.0 (set_partial c r.1))
]

-- A round needs a character, so one more round than there are characters is enough.
unfoldable pub append : Settings → Text → LogCollector → LogCollector
append s chunk c =
    let partial = c.partial ++ chunk in append_loop s (length partial + 1) (set_partial c partial)

abbrev pub flush_partial : Settings → Text → LogCollector → LogCollector
flush_partial s [] c = c
flush_partial s (x ∷ t) c = set_partial (emit s (x ∷ t) c) []

unfoldable pub flush : Settings → LogCollector → LogCollector
flush s c = flush_partial s c.partial c

abbrev pub join : List Text → Text
join [] = []
join (l ∷ ls) = l ++ join ls

-- The tail of the log, which ends up in the database.
unfoldable pub tail : Settings → LogCollector → Text × LogCollector
tail s c = let c' = flush s c in (join c'.lines, c')
