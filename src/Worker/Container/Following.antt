-- ===== src/Worker/Container/Following.antt =====
-- What the log thread of a container hands to the collector of worker/logs.py.
use perzforge.Prelude.{ℕ, ◌≡◌, refl, ap, sym, ◌∙◌, List, [], ◌∷◌, ◌++◌, Text}
use perzforge.Settings.{Settings}
use perzforge.Logs.{LogCollector, append}
use perzforge.Logs.Chunks.{append-append}
use perzforge.Worker.Container.{follow_logs}

-- The decoded texts of some chunks, together.
abbrev pub decoded : (List ℕ → Text) → List (List ℕ) → Text
decoded decode [] = []
decoded decode (chunk ∷ chunks) = decode chunk ++ decoded decode chunks

append_nil : (t : Text) → t ++ [] ≡ t
append_nil [] = refl
append_nil (x ∷ t) = ap (λ u. x ∷ u) (append_nil t)

-- Following the log of a container leaves the lines, the channel, the replay buffer and the rest that
-- one append of the decoded texts of its chunks leaves: how the decoded text is cut into chunks does
-- not matter, nor does where its lines end. (Each chunk is decoded by itself.)
pub follow_logs-append :
    (s : Settings) (decode : List ℕ → Text) (chunk : List ℕ) (chunks : List (List ℕ))
    (l : LogCollector)
    → follow_logs s decode (chunk ∷ chunks) l ≡ append s (decoded decode (chunk ∷ chunks)) l
unfolding follow_logs
follow_logs-append s decode chunk [] l = ap (λ t. append s t l) (sym (append_nil (decode chunk)))
follow_logs-append s decode chunk (next ∷ chunks) l =
    follow_logs-append s decode next chunks (append s (decode chunk) l)
    ∙ append-append s (decode chunk) (decoded decode (next ∷ chunks)) l
