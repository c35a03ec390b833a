-- ===== src/Mcp/Breaker/Trips.antt =====
-- proxy.rs: when the circuit breaker opens, and when it lets a request through again.
use syntropy.Prelude.{
  ◌^◌, ℕ, ◌≡◌, ◌≢◌, ◌↔◌, ◌⊎◌, inl, inr, ◌≤◌, ◌<◌, ◌+◌, ◌-◌, refl, none, some, List, [], ◌∷◌, ok,
  err, if◌then◌else◌, length, leb, arith,
}
use syntropy.Mcp.Breaker.{
  CircuitBreaker, closed, opened, half_open, can_execute, record_success, record_failure, refusal,
}

-- An open breaker knows since when; a closed one has no such time and has counted fewer failures
-- than its threshold.
unfoldable pub IsConsistent : CircuitBreaker → Type 0
IsConsistent b =
    ((b.state ≡ closed) × (b.opened_at ≡ none) × (b.consecutive_failures < b.failure_threshold))
    ⊎ ((b.state ≢ closed) × (b.opened_at ≢ none))

-- What happens to a breaker, each with the time of the clock.
pub data Event : Type 0 where
  asked failed : ℕ → Event
  succeeded : Event

unfoldable pub after : CircuitBreaker → Event → CircuitBreaker
unfolding can_execute record_failure record_success
after b (asked now) = (can_execute now b).1
after b (failed now) = record_failure now b
after b succeeded = record_success b

unfoldable pub after_all : CircuitBreaker → List Event → CircuitBreaker
unfolding after
after_all b [] = b
after_all b (e ∷ es) = after_all (after b e) es

unfoldable pub failures_at : List ℕ → List Event
failures_at [] = []
failures_at (t ∷ ts) = failed t ∷ failures_at ts

after-threshold :
    (b : CircuitBreaker) (e : Event) → (after b e).failure_threshold ≡ b.failure_threshold
unfolding after can_execute record_failure record_success
after-threshold b (asked now) = ground arith
after-threshold b (failed now) = ground arith
after-threshold b succeeded = refl

-- One event keeps a breaker consistent.
after-IsConsistent :
    (b : CircuitBreaker) (e : Event)
    → 0 < b.failure_threshold
    → b.failure_threshold < 2 ^ 32
    → IsConsistent b
    → IsConsistent (after b e)
unfolding after can_execute record_failure record_success IsConsistent
after-IsConsistent b (asked now) above fits c = ground arith
after-IsConsistent b (failed now) above fits c = ground arith
after-IsConsistent b succeeded above fits c = inl (refl, refl, above)

-- A breaker that was just made is consistent, and so it is after any events.
pub after_all-IsConsistent :
    (b : CircuitBreaker) (es : List Event)
    → 0 < b.failure_threshold
    → b.failure_threshold < 2 ^ 32
    → IsConsistent b
    → IsConsistent (after_all b es)
unfolding after_all
after_all-IsConsistent b [] above fits c = c
after_all-IsConsistent b (e ∷ es) above fits c =
    after_all-IsConsistent (after b e) es (omega (arith, after-threshold b e))
      (omega (arith, after-threshold b e)) (after-IsConsistent b e above fits c)

record_failure_opened :
    (b : CircuitBreaker) (t : ℕ) → b.state ≡ opened → (record_failure t b).state ≡ opened
unfolding record_failure
record_failure_opened b t is_open = ground arith

-- One failure of a closed breaker: it opens, or it has counted one more.
record_failure_closed :
    (b : CircuitBreaker) (t : ℕ)
    → b.state ≡ closed
    → b.consecutive_failures < b.failure_threshold
    → b.failure_threshold < 2 ^ 32
    → ((record_failure t b).state ≡ opened × b.consecutive_failures + 1 ≡ b.failure_threshold)
      ⊎ ((record_failure t b).state ≡ closed
          × (record_failure t b).consecutive_failures ≡ b.consecutive_failures + 1
          × b.consecutive_failures + 1 < b.failure_threshold)
unfolding record_failure
record_failure_closed b t is_closed below fits = ground arith

-- Failures leave an open breaker open.
after_all_failures_opened :
    (b : CircuitBreaker) (ts : List ℕ)
    → b.state ≡ opened
    → (after_all b (failures_at ts)).state ≡ opened
unfolding after_all failures_at after
after_all_failures_opened b [] is_open = is_open
after_all_failures_opened b (t ∷ ts) is_open =
    after_all_failures_opened (record_failure t b) ts (record_failure_opened b t is_open)

-- A closed breaker opens at the failure that completes its threshold, and not before: after some
-- failures in a row it is open exactly when they and those already counted reach the threshold.
pub after_all_failures_iff :
    (b : CircuitBreaker) (ts : List ℕ)
    → b.state ≡ closed
    → b.consecutive_failures < b.failure_threshold
    → b.failure_threshold < 2 ^ 32
    → ((after_all b (failures_at ts)).state ≡ opened)
      ↔ (b.failure_threshold ≤ b.consecutive_failures + length ts)
unfolding after_all after failures_at record_failure
after_all_failures_iff b [] is_closed below fits = ground arith
after_all_failures_iff b (t ∷ ts) is_closed below fits =
    elim (record_failure_closed b t is_closed below fits) [
      | inl (is_open, reached) ↦ (
        λ h. omega (arith, reached),
        λ h. after_all_failures_opened (record_failure t b) ts is_open,
      )
      | inr (still, counted, below') ↦
          let same = after-threshold b (failed t) in
          let more =
            after_all_failures_iff (record_failure t b) ts still (omega (arith, counted, same))
              (omega (arith, same)) in
          (λ h. omega (arith, more.0 h, counted, same), λ h. more.1 (omega (arith, counted, same)))
    ]

-- An open breaker refuses every request until its reset timeout has passed, and stays as it is; the
-- first request after that is let through, as a probe.
pub can_execute_opened :
    (b : CircuitBreaker) (now since : ℕ)
    → b.state ≡ opened
    → b.opened_at ≡ some since
    → can_execute now b ≡ (
        if leb b.reset_timeout (now - since)
        then (ok tt, record b { state = half_open })
        else (err refusal, b))
unfolding can_execute
can_execute_opened b now since is_open at = ground arith
