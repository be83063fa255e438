-- ===== src/Logs/Chunks.antt =====
-- The lines that `LogCollector.append` of worker/logs.py cuts, and the chunks that they come in.
use mathlib.Core.List.{append_assoc}
use perzforge.Prelude.{
  ℕ, zero, suc, ◌+◌, ◌<◌, ◌≡◌, refl, sym, ap, ◌∙◌, false, none, some, List, [], ◌∷◌, ◌++◌, Text,
  length, arith, Bool-cases, ◌⊎◌, inl, inr, ◌==◌, if◌then◌else◌,
}
use perzforge.Settings.{Settings}
use perzforge.Logs.{LogCollector, publish_line, emit, split_line, set_partial, append_loop, append}

-- A character before a text that is cut already.
abbrev before : ℕ → List Text × Text → List Text × Text
before c ([], rest) = ([], c ∷ rest)
before c (l ∷ ls, rest) = ((c ∷ l) ∷ ls, rest)

-- The whole lines of a text, each with its break, and what is left.
abbrev pub lines_of : Text → List Text × Text
lines_of [] = ([], [])
lines_of (c ∷ t) = let r = lines_of t in if c == b'\n' then ((c ∷ []) ∷ r.0, r.1) else before c r

abbrev pub emit_all : Settings → List Text → LogCollector → LogCollector
emit_all s [] c = c
emit_all s (l ∷ ls) c = emit_all s ls (emit s l c)

-- Where a text breaks, if it does, against the lines that are whole.
split_line-cases :
    (t : Text)
    → ((split_line t ≡ none) × (lines_of t ≡ ([], t)))
      ⊎ ((line : Text) × (rest : Text) × (split_line t ≡ some (line, rest))
          × (lines_of t ≡ (line ∷ (lines_of rest).0, (lines_of rest).1))
          × (length rest < length t))
unfolding split_line
split_line-cases [] = inl (refl, refl)
split_line-cases (c ∷ t) = elim (Bool-cases (c == b'\n')) [
  | inl break ↦ inr (c ∷ [], t, rw break refl, rw break refl, omega arith)
  | inr other ↦ elim (split_line-cases t) [
    | inl (whole, cut) ↦ inl (rw (other, whole) refl, rw (other, cut) refl)
    | inr (line, rest, broken, cut, less) ↦
        inr (c ∷ line, rest, rw (other, broken) refl, rw (other, cut) refl, omega (arith, less))
  ]
]

partial-emit :
    (s : Settings) (l : Text) (c : LogCollector) (t : Text)
    → emit s l (set_partial c t) ≡ set_partial (emit s l c) t
unfolding emit publish_line
partial-emit s l c t = refl

partial-emit_all :
    (s : Settings) (ls : List Text) (c : LogCollector) (t : Text)
    → emit_all s ls (set_partial c t) ≡ set_partial (emit_all s ls c) t
partial-emit_all s [] c t = refl
partial-emit_all s (l ∷ ls) c t = rw (partial-emit s l c t) (partial-emit_all s ls (emit s l c) t)

-- With more fuel than characters the loop emits the whole lines, and keeps the rest.
append_loop_lem :
    (s : Settings) (fuel : ℕ) (c : LogCollector) (t : Text)
    → length t < fuel
    → append_loop s fuel (set_partial c t)
      ≡ set_partial (emit_all s (lines_of t).0 c) (lines_of t).1
unfolding append_loop split_line
append_loop_lem s zero c t h = ground arith
append_loop_lem s (suc fuel) c t h = elim (split_line-cases t) [
  | inl (whole, cut) ↦ rw (whole, cut) refl
  | inr (line, rest, broken, cut, less) ↦
      rw (broken, cut)
        (ap (append_loop s fuel) (partial-emit s line c rest)
          ∙ append_loop_lem s fuel (emit s line c) rest (omega (arith, less)))
]

append_lem :
    (s : Settings) (chunk : Text) (c : LogCollector)
    → append s chunk c
      ≡ set_partial
          (emit_all s (lines_of (c.partial ++ chunk)).0 c)
          (lines_of (c.partial ++ chunk)).1
unfolding append
append_lem s chunk c =
    append_loop_lem s (length (c.partial ++ chunk) + 1) c (c.partial ++ chunk) (omega arith)

before-cut :
    (c : ℕ) (r : List Text × Text) (u : Text)
    → (c == b'\n') ≡ false
    → before c (r.0 ++ (lines_of (r.1 ++ u)).0, (lines_of (r.1 ++ u)).1)
      ≡ ((before c r).0 ++ (lines_of ((before c r).1 ++ u)).0, (lines_of ((before c r).1 ++ u)).1)
before-cut c ([], rest) u other = rw other refl
before-cut c (l ∷ ls, rest) u other = refl

-- Cutting a text with more behind it cuts the text, and then what was left with the rest.
lines_of-append :
    (t u : Text)
    → lines_of (t ++ u)
      ≡ ((lines_of t).0 ++ (lines_of ((lines_of t).1 ++ u)).0, (lines_of ((lines_of t).1 ++ u)).1)
lines_of-append [] u = refl
lines_of-append (c ∷ t) u = elim (Bool-cases (c == b'\n')) [
  | inl break ↦ rw (break, lines_of-append t u) refl
  | inr other ↦ rw (other, lines_of-append t u) (before-cut c (lines_of t) u other)
]

emit_all-append :
    (s : Settings) (ks ls : List Text) (c : LogCollector)
    → emit_all s (ks ++ ls) c ≡ emit_all s ls (emit_all s ks c)
emit_all-append s [] ls c = refl
emit_all-append s (k ∷ ks) ls c = emit_all-append s ks ls (emit s k c)

-- Two texts appended one after the other leave the lines, the channel, the buffer and the rest that
-- the two together leave.
pub append-append :
    (s : Settings) (a b : Text) (c : LogCollector) → append s b (append s a c) ≡ append s (a ++ b) c
append-append s a b c =
    let cut = lines_of (c.partial ++ a) in
    let next = lines_of (cut.1 ++ b) in
    let first = emit_all s cut.0 c in
    let left : append s b (append s a c) ≡ set_partial (emit_all s next.0 first) next.1 =
      ap (append s b) (append_lem s a c)
      ∙ append_lem s b (set_partial first cut.1)
      ∙ ap (λ (k : LogCollector). set_partial k next.1) (partial-emit_all s next.0 first cut.1) in
    let whole : lines_of (c.partial ++ (a ++ b)) ≡ (cut.0 ++ next.0, next.1) =
      ap lines_of (sym (append_assoc c.partial a b)) ∙ lines_of-append (c.partial ++ a) b in
    let right : append s (a ++ b) c ≡ set_partial (emit_all s next.0 first) next.1 =
      append_lem s (a ++ b) c
      ∙ ap (λ (r : List Text × Text). set_partial (emit_all s r.0 c) r.1) whole
      ∙ ap (λ (k : LogCollector). set_partial k next.1) (emit_all-append s cut.0 next.0 c) in
    left ∙ sym right
