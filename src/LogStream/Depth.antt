-- ===== src/LogStream/Depth.antt =====
-- `send_line` of api/services/job_log_stream.py returns, however slow the client is.
use native.Mathlib.Nat.{mod-eq_of_lt}
use perzforge.Prelude.{
  ℕ, ◌+◌, ◌%◌, ◌≤◌, ◌≡◌, refl, ap, subst⁻¹, Bool, true, false, arith, ◌==◌, Bool-cases, inl, inr,
  Text,
}
use perzforge.Settings.{Settings}
use perzforge.Http.{Result, ok}
use perzforge.LogStream.{
  Relay, send_line, send_once, send_depth, attempt, mark_thin, one_skipped, thinning, attempted,
  send_text,
}

one_mod : (n : ℕ) → 2 ≤ n → ((1 % n) == 0) ≡ false
one_mod n h = let e : 1 % n ≡ 1 = mod-eq_of_lt (omega arith) in rw e refl

module _ (s : Settings) (slow : ℕ → Bool) (text : Text)
    (wide : 2 ≤ s.job_log_ws_thin_interval) where
  positive : (s.job_log_ws_thin_interval == 0) ≡ false
  positive = ground arith

  -- The call after a timeout leaves the line out.
  again_lem :
      (again : Relay → Result Relay) (q : Relay)
      → send_once s slow text again (thinning q) ≡ ok (one_skipped (thinning q))
  unfolding send_once
  again_lem again q = rw (positive, one_mod s.job_log_ws_thin_interval wide) refl

  module _ (again : Relay → Result Relay)
      (returns : (q : Relay) → (p : Relay) × (again (thinning q) ≡ ok p)) where
    attempt_lem : (q : Relay) → (p : Relay) × (attempt slow text again q ≡ ok p)
    unfolding attempt
    attempt_lem q = elim (Bool-cases (slow q.attempts)) [
      | inl late ↦ rw late (returns (attempted q))
      | inr quick ↦ (send_text text (attempted q), rw quick refl)
    ]

    thin_lem :
        (r : Relay)
        → (q : Relay) × (send_once s slow text again (record r { thin_mode = true }) ≡ ok q)
    unfolding send_once
    thin_lem r =
        let r' : Relay = record r { thin_mode = true } in
        elim (Bool-cases (((r.skipped + 1) % s.job_log_ws_thin_interval) == 0)) [
          | inl due ↦ rw (positive, due) (attempt_lem (mark_thin (one_skipped r')))
          | inr skip ↦ (one_skipped r', rw (positive, skip) refl)
        ]

    fast_lem :
        (r : Relay)
        → (q : Relay) × (send_once s slow text again (record r { thin_mode = false }) ≡ ok q)
    unfolding send_once
    fast_lem r = attempt_lem (record r { thin_mode = false })

    once_lem : (r : Relay) → (q : Relay) × (send_once s slow text again r ≡ ok q)
    once_lem r = elim (Bool-cases r.thin_mode) [
      | inr fast ↦
          subst⁻¹ (λ x. (q : Relay) × (send_once s slow text again x ≡ ok q))
            (ap (λ b. record r { thin_mode = b }) fast) (fast_lem r)
      | inl thin ↦
          subst⁻¹ (λ x. (q : Relay) × (send_once s slow text again x ≡ ok q))
            (ap (λ b. record r { thin_mode = b }) thin) (thin_lem r)
    ]

  -- With an interval of at least two, a line is sent or left out, and nothing is raised.
  pub send_line-returns : (r : Relay) → (q : Relay) × (send_line s slow send_depth text r ≡ ok q)
  unfolding send_line
  send_line-returns r =
      once_lem (send_once s slow text (send_line s slow 0 text))
        (λ q. (one_skipped (thinning q), again_lem (send_line s slow 0 text) q)) r
