-- ===== src/Tunnel/Client/Reconnects.antt =====
-- syntropy-tunnel/src/client.rs: what holds of the worker through all its reconnections.
use syntropy.Prelude.{
  Option-cases, ℕ, ◌≡◌, inl, inr, ◌≤◌, ◌+◌, max, refl, Bool, false, Option, none, some, List, [],
  ◌∷◌, Text, leb, ◌==◌, ==_iff, arith, List-cases, if_both,
}
use syntropy.Tunnel.Frames.{TunnelClientFrame}
use syntropy.Tunnel.Client.{
  phase_no, heartbeat_of, TunnelConfig, Phase, at_head, connecting, streaming, asleep, Worker,
  tired, begin_attempt, refuse, wake, interrupt, establish, leave_stream, send_or_leave,
  on_outbound, on_heartbeat, on_inbound, on_shutdown, WorkerEvent, begins, refused, woken,
  interrupted, server_ends, shutdown_seen, closes, established, outbound_ready, heartbeat_due,
  inbound_ready, sends, when, worker_step, worker_run, new_worker,
}

abbrev pub is_streaming : Phase → Bool
is_streaming p = phase_no p == phase_no streaming

abbrev pub IsWithin : Option ℕ → ℕ → Type 0
IsWithin none n = Unit
IsWithin (some m) n = n ≤ m

-- The delay and the attempts stay within their bounds, and the flag tells whether there is a stream.
abbrev pub IsTruthful : TunnelConfig → Worker → Type 0
IsTruthful c w =
    (w.current_delay ≤ max c.initial_reconnect_delay c.max_reconnect_delay)
    × IsWithin c.max_reconnect_attempts w.attempts
    × (w.connected ≡ is_streaming w.phase)

zero-IsWithin : (m : Option ℕ) → IsWithin m 0
zero-IsWithin none = tt
zero-IsWithin (some k) = omega arith

-- An event in its phase, and one that is not.
when-keeps :
    (P : Worker → Type 0) (p q : Phase) (f : Worker → Worker) (w : Worker)
    → P w
    → (phase_no p ≡ phase_no q → P (f w))
    → P (when p q f w)
when-keeps P p q f w h k =
    if_both P (phase_no p == phase_no q) (λ e. k ((==_iff (phase_no p) (phase_no q)).0 e)) (λ e. h)

module _ (c : TunnelConfig) where
  begin_attempt-IsTruthful :
      (w : Worker) → IsTruthful c w → phase_no w.phase ≡ 0 → IsTruthful c (begin_attempt c w)
  unfolding begin_attempt
  begin_attempt-IsTruthful w (d, a, s) e =
      if_both (IsTruthful c) w.shutdown (λ t. (d, a, refl))
        (λ f.
          if_both (IsTruthful c) (tired c w) (λ t. (d, a, refl))
            (λ f. (d, within c.max_reconnect_attempts w.attempts f, ground (arith, s, e))))
    where
      within :
          (m : Option ℕ) (n : ℕ)
          → (elim m [ none ↦ false | some k ↦ leb k n ]) ≡ false
          → IsWithin m (n + 1)
      within none n h = tt
      within (some k) n h = ground arith

  establish-IsTruthful : (broken : Bool) (w : Worker) → IsTruthful c (establish c broken w)
  unfolding establish
  establish-IsTruthful broken w = elim (Option-cases w.pending_frame) [
    | inl e ↦ rw (establish, e) (omega arith, zero-IsWithin c.max_reconnect_attempts, refl)
    | inr (frame, e) ↦
        rw (establish, e)
          (if_both (IsTruthful c) broken
            (λ t. (omega arith, zero-IsWithin c.max_reconnect_attempts, refl))
            (λ f. (omega arith, zero-IsWithin c.max_reconnect_attempts, refl)))
  ]

  send_or_leave-IsTruthful :
      (broken : Bool) (frame : TunnelClientFrame) (w : Worker)
      → IsTruthful c w
      → IsTruthful c (send_or_leave broken frame w)
  unfolding send_or_leave leave_stream
  send_or_leave-IsTruthful broken frame w (d, a, s) =
      if_both (IsTruthful c) broken (λ t. (d, a, refl)) (λ f. (d, a, s))

  on_outbound-IsTruthful :
      (broken : Bool) (w : Worker) → IsTruthful c w → IsTruthful c (on_outbound broken w)
  unfolding on_outbound
  on_outbound-IsTruthful broken w (d, a, s) = elim (List-cases w.outbound) [
    | inl e ↦ rw (on_outbound, e) (d, a, refl)
    | inr (frame, rest, e) ↦
        rw (on_outbound, e)
          (send_or_leave-IsTruthful broken frame (record w { outbound = rest }) (d, a, s))
  ]

  on_heartbeat-IsTruthful :
      (uuid : Text) (now : ℕ) (broken : Bool) (w : Worker)
      → IsTruthful c w
      → IsTruthful c (on_heartbeat c uuid now broken w)
  unfolding on_heartbeat
  on_heartbeat-IsTruthful uuid now broken w (d, a, s) = elim (Option-cases c.heartbeat_interval) [
    | inl e ↦ rw (on_heartbeat, e) (d, a, s)
    | inr (i, e) ↦
        rw (on_heartbeat, e)
          (send_or_leave-IsTruthful broken (heartbeat_of c uuid now (w.heartbeat_seq + 1))
            (record w { heartbeat_seq = w.heartbeat_seq + 1 }) (d, a, s))
  ]

  worker_step-IsTruthful :
      (e : WorkerEvent) (w : Worker) → IsTruthful c w → IsTruthful c (worker_step c e w)
  unfolding worker_step refuse wake interrupt leave_stream on_inbound on_shutdown
  worker_step-IsTruthful begins w h =
      when-keeps (IsTruthful c) w.phase at_head (begin_attempt c) w h (begin_attempt-IsTruthful w h)
  worker_step-IsTruthful refused w (d, a, s) =
      when-keeps (IsTruthful c) w.phase connecting refuse w (d, a, s)
        (λ e. (d, a, ground (arith, s, e)))
  worker_step-IsTruthful woken w (d, a, s) =
      when-keeps (IsTruthful c) w.phase asleep (wake c) w (d, a, s)
        (λ e. (omega arith, a, ground (arith, s, e)))
  worker_step-IsTruthful interrupted w (d, a, s) =
      when-keeps (IsTruthful c) w.phase asleep interrupt w (d, a, s)
        (λ e.
          if_both (IsTruthful c) w.shutdown (λ t. (d, a, refl)) (λ f. (d, a, ground (arith, s, e))))
  worker_step-IsTruthful server_ends w (d, a, s) =
      when-keeps (IsTruthful c) w.phase streaming leave_stream w (d, a, s) (λ e. (d, a, refl))
  worker_step-IsTruthful shutdown_seen w (d, a, s) =
      when-keeps (IsTruthful c) w.phase streaming on_shutdown w (d, a, s)
        (λ e. if_both (IsTruthful c) w.shutdown (λ t. (d, a, refl)) (λ f. (d, a, s)))
  worker_step-IsTruthful closes w h = h
  worker_step-IsTruthful (established broken) w h =
      when-keeps (IsTruthful c) w.phase connecting (establish c broken) w h
        (λ e. establish-IsTruthful broken w)
  worker_step-IsTruthful (outbound_ready broken) w h =
      when-keeps (IsTruthful c) w.phase streaming (on_outbound broken) w h
        (λ e. on_outbound-IsTruthful broken w h)
  worker_step-IsTruthful (heartbeat_due uuid now broken) w h =
      when-keeps (IsTruthful c) w.phase streaming (on_heartbeat c uuid now broken) w h
        (λ e. on_heartbeat-IsTruthful uuid now broken w h)
  worker_step-IsTruthful (inbound_ready dropped frame) w (d, a, s) =
      when-keeps (IsTruthful c) w.phase streaming (on_inbound dropped frame) w (d, a, s)
        (λ e. if_both (IsTruthful c) dropped (λ t. (d, a, refl)) (λ f. (d, a, s)))
  worker_step-IsTruthful (sends frame) w h = h

-- Whatever the worker meets: its delay never exceeds the longer of the two that are configured, its
-- attempts since the last connection never exceed the maximum, and it reports a connection exactly
-- while it is in the loop on a stream.
pub worker_run-IsTruthful :
    (c : TunnelConfig) (es : List WorkerEvent) → IsTruthful c (worker_run c es (new_worker c))
unfolding worker_run
worker_run-IsTruthful c es =
    go es (new_worker c) (omega arith, zero-IsWithin c.max_reconnect_attempts, refl)
  where
    go : (es : List WorkerEvent) (w : Worker) → IsTruthful c w → IsTruthful c (worker_run c es w)
    go [] w h = h
    go (e ∷ es) w h = go es (worker_step c e w) (worker_step-IsTruthful c e w h)
