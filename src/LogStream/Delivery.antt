-- ===== src/LogStream/Delivery.antt =====
-- What a client of the log stream receives of the lines that the agent publishes.
use mathlib.Core.List.{append_assoc, append-nil}
use perzforge.Prelude.{
  ℕ, zero, suc, ◌+◌, ◌-◌, ◌≤◌, ◌<◌, ◌≡◌, refl, sym, ap, ◌∙◌, Bool, true, false, some, List, [], ◌∷◌,
  ◌++◌, Text, take, drop, length, length-append, length-drop, All, arith, ◌==◌, if◌then◌else◌,
}
use perzforge.Settings.{Settings}
use perzforge.Http.{ok}
use perzforge.Logs.{LogCollector, last_of, trimmed, new_collector, publish_line, emit}
use perzforge.Logs.Chunks.{emit_all}
use perzforge.LogStream.{
  Json, line, eof, parse_stream_payload, Relay, new_relay, send_text, attempted, send_line,
  send_once, attempt, send_depth, replay_lines, replay_buffer, relay_live, relay_job,
}

-- The payload is passed on as a line.
abbrev pub IsPlain : Json → Text → Type 0
IsPlain eof_of text = parse_stream_payload eof_of text ≡ line text

abbrev pub never : ℕ → Bool
never n = false

-- A relay that is told lines, and none of the sends times out.
abbrev told : List Text → Relay → Relay
told [] r = r
told (text ∷ texts) r = told texts (send_text text (attempted r))

told-sent : (texts : List Text) (r : Relay) → (told texts r).sent ≡ r.sent ++ texts
told-sent [] r = sym (append-nil r.sent)
told-sent (text ∷ texts) r =
    told-sent texts (send_text text (attempted r)) ∙ append_assoc r.sent (text ∷ []) texts

module _ (s : Settings) (eof_of : Json) where
  send_fast :
      (text : Text) (r : Relay)
      → r.thin_mode ≡ false
      → send_line s never send_depth text r ≡ ok (send_text text (attempted r))
  unfolding send_line send_once attempt
  send_fast text r fast = simp fast refl

  replay_fast :
      (texts : List Text) (r : Relay)
      → r.thin_mode ≡ false
      → All (IsPlain eof_of) texts
      → replay_lines s eof_of never texts r ≡ ok (told texts r)
  unfolding replay_lines parse_stream_payload
  replay_fast [] r fast plain = refl
  replay_fast (text ∷ texts) r fast plain =
      rw plain.0
        (rw (send_fast text r fast) (replay_fast texts (send_text text (attempted r)) fast plain.1))

  live_fast :
      (texts : List Text) (payload event : Text) (later : List Text) (r : Relay)
      → r.thin_mode ≡ false
      → All (IsPlain eof_of) texts
      → parse_stream_payload eof_of payload ≡ eof event
      → relay_live s eof_of never (texts ++ payload ∷ later) r ≡ ok (some event, told texts r)
  unfolding relay_live parse_stream_payload
  live_fast [] payload event later r fast plain ends = rw ends refl
  live_fast (text ∷ texts) payload event later r fast plain ends = rw plain.0 (
      rw (send_fast text r fast)
        (live_fast texts payload event later (send_text text (attempted r)) fast plain.1 ends))

told-thin : (texts : List Text) (r : Relay) → (told texts r).thin_mode ≡ r.thin_mode
told-thin [] r = refl
told-thin (text ∷ texts) r = told-thin texts (send_text text (attempted r))

drop-append :
    {A : Type 0} (n : ℕ) (xs : List A) (ys : List A)
    → n ≤ length xs
    → drop n (xs ++ ys) ≡ drop n xs ++ ys
drop-append zero xs ys h = refl
drop-append (suc n) [] ys h = absurd (omega (arith, h))
drop-append (suc n) (x ∷ xs) ys h = drop-append n xs ys (omega (arith, h))

drop-nil : {A : Type 0} (n : ℕ) → drop {A = A} n [] ≡ []
drop-nil zero = refl
drop-nil (suc n) = refl

drop-drop : {A : Type 0} (m n : ℕ) (xs : List A) → drop m (drop n xs) ≡ drop (n + m) xs
drop-drop m zero xs = let e : m ≡ 0 + m = omega arith in ap (λ k. drop k xs) e
drop-drop m (suc n) [] = drop-nil m ∙ sym (drop-nil (suc n + m))
drop-drop m (suc n) (x ∷ xs) =
    let e : suc (n + m) ≡ suc n + m = omega arith in drop-drop m n xs ∙ ap (λ k. drop k (x ∷ xs)) e

-- Trimming before a line is added, or only after it, leaves the same.
last_of-snoc :
    {A : Type 0} (n : ℕ) (xs : List A) (x : A)
    → 0 < n
    → last_of n (last_of n xs ++ x ∷ []) ≡ last_of n (xs ++ x ∷ [])
last_of-snoc n xs x pos =
    let k = length xs - n in
    let kept = sym (drop-append k xs (x ∷ []) (omega arith)) in
    let long = length-append xs (x ∷ []) in
    let size = length-drop k (xs ++ x ∷ []) in
    let e : k + (length (drop k (xs ++ x ∷ [])) - n) ≡ length (xs ++ x ∷ []) - n =
      omega (arith, long, size) in
    ap (last_of n) kept
    ∙ drop-drop (length (drop k (xs ++ x ∷ [])) - n) k (xs ++ x ∷ [])
    ∙ ap (λ i. drop i (xs ++ x ∷ [])) e

module _ (s : Settings) (pos : 0 < s.job_log_replay_max_lines) where
  trimmed-pos :
      (xs : List Text)
      → trimmed s.job_log_replay_max_lines xs ≡ last_of s.job_log_replay_max_lines xs
  trimmed-pos xs = ground arith

  -- The buffer after lines were published: the last of them.
  emit_all-buffer :
      (texts before : List Text) (c : LogCollector)
      → c.buffer ≡ last_of s.job_log_replay_max_lines before
      → (emit_all s texts c).buffer ≡ last_of s.job_log_replay_max_lines (before ++ texts)
  unfolding emit publish_line
  emit_all-buffer [] before c e =
      e ∙ ap (last_of s.job_log_replay_max_lines) (sym (append-nil before))
  emit_all-buffer (text ∷ texts) before c e =
      emit_all-buffer texts (before ++ text ∷ []) (emit s text c) (
        trimmed-pos (c.buffer ++ text ∷ [])
        ∙ ap (λ b. last_of s.job_log_replay_max_lines (b ++ text ∷ [])) e
        ∙ last_of-snoc s.job_log_replay_max_lines before text pos)
      ∙ ap (last_of s.job_log_replay_max_lines) (append_assoc before (text ∷ []) texts)

  emit_all-channel :
      (texts : List Text) (c : LogCollector) → (emit_all s texts c).channel ≡ c.channel ++ texts
  unfolding emit publish_line
  emit_all-channel [] c = sym (append-nil c.channel)
  emit_all-channel (text ∷ texts) c =
      emit_all-channel texts (emit s text c) ∙ append_assoc c.channel (text ∷ []) texts

take-all : {A : Type 0} (n : ℕ) (xs : List A) → length xs ≤ n → take n xs ≡ xs
take-all zero [] h = refl
take-all zero (x ∷ xs) h = absurd (omega (arith, h))
take-all (suc n) [] h = refl
take-all (suc n) (x ∷ xs) h = ap (λ ys. x ∷ ys) (take-all n xs (omega (arith, h)))

length-last_of : {A : Type 0} (n : ℕ) (xs : List A) → length (last_of n xs) ≤ n
length-last_of n xs = omega (arith, length-drop (length xs - n) xs)

All-drop : {A : Type 0} (P : A → Type 0) (n : ℕ) (xs : List A) → All P xs → All P (drop n xs)
All-drop P zero xs h = h
All-drop P (suc n) [] h = tt
All-drop P (suc n) (x ∷ xs) h = All-drop P n xs h.1

drop-length : {A : Type 0} (xs ys : List A) → drop (length xs) (xs ++ ys) ≡ ys
drop-length [] ys = refl
drop-length (x ∷ xs) ys = drop-length xs ys

relay_steps :
    (s : Settings) (eof_of : Json) (buffer messages : List Text) (q : Relay) (event : Text)
    (r : Relay)
    → replay_buffer s eof_of never buffer new_relay ≡ ok q
    → relay_live s eof_of never messages q ≡ ok (some event, r)
    → relay_job s eof_of never buffer messages new_relay ≡ ok (true, send_text event r)
unfolding relay_job
relay_steps s eof_of buffer messages q event r replayed lived = rw replayed (rw lived refl)

-- The stream of a job whose agent publishes lines and then an event that ends the stream, for a
-- client that asks between two lines, that no send times out for, and that subscribes before the
-- next line: if no line is taken for such an event and the replay limit is positive, the client gets
-- the last lines published before, as many as the limit allows, then every later line in order,
-- then the event, once, and the socket is closed; what comes after the event is not sent.
pub relay_job-delivers :
    (s : Settings) (eof_of : Json) (earlier rest : List Text) (payload event : Text)
    (later : List Text)
    → 0 < s.job_log_replay_max_lines
    → All (IsPlain eof_of) earlier
    → All (IsPlain eof_of) rest
    → parse_stream_payload eof_of payload ≡ eof event
    → let c = emit_all s earlier new_collector in
      let messages = drop (length c.channel) (emit_all s rest c).channel ++ payload ∷ later in
      (r : Relay) × (relay_job s eof_of never c.buffer messages new_relay ≡ ok (true, r))
      × (r.sent ≡ last_of s.job_log_replay_max_lines earlier ++ (rest ++ event ∷ []))
unfolding replay_buffer
relay_job-delivers s eof_of earlier rest payload event later pos plain plain' ends =
    let n = s.job_log_replay_max_lines in
    let c = emit_all s earlier new_collector in
    let old = last_of n earlier in
    let q = told old new_relay in
    let r = told rest q in
    let buffer : c.buffer ≡ old =
      emit_all-buffer s pos earlier [] new_collector (sym (drop-nil (0 - n))) in
    let fresh : drop (length c.channel) (emit_all s rest c).channel ≡ rest =
      ap (drop (length c.channel)) (emit_all-channel s pos rest c) ∙ drop-length c.channel rest in
    let capped : (if n == 0 then old else take n old) ≡ old =
      ground (arith, take-all n old (length-last_of n earlier)) in
    let fast = told-thin old new_relay in
    let replayed : replay_buffer s eof_of never c.buffer new_relay ≡ ok q =
      ap (λ b. replay_lines s eof_of never (if n == 0 then b else take n b) new_relay) buffer
      ∙ ap (λ b. replay_lines s eof_of never b new_relay) capped
      ∙ replay_fast s eof_of old new_relay refl
          (All-drop (IsPlain eof_of) (length earlier - n) earlier plain) in
    let lived =
      ap (λ ms. relay_live s eof_of never (ms ++ payload ∷ later) q) fresh
      ∙ live_fast s eof_of rest payload event later q fast plain' ends in
    (
      send_text event r,
      relay_steps s eof_of c.buffer _ q event r replayed lived,
      ap (λ xs. xs ++ event ∷ [])
            (told-sent rest q ∙ ap (λ xs. xs ++ rest) (told-sent old new_relay))
          ∙ append_assoc old rest (event ∷ []),
    )
