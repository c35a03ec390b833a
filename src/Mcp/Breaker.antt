-- ===== src/Mcp/Breaker.antt =====
-- proxy.rs: `CircuitBreaker`. An instant is the number of a clock that never runs backwards.
pub mod Trips
use syntropy.Prelude.{
  ◌^◌, ℕ, zero, suc, ◌≡◌, ◌≢◌, ◌↔◌, ◌⊎◌, inl, inr, ◌≤◌, ◌<◌, ◌+◌, ◌-◌, ◌*◌, ◌%◌, ◌/◌, min, max,
  refl, sym, ap, ◌∙◌, Bool, true, false, not, ◌&&◌, ◌||◌, Option, none, some, List, [], ◌∷◌, ◌++◌,
  map, Text, lit, text_eq, text_eq_iff, text_eq_refl, Dict, lookup, insert, remove, Result, ok, err,
  ◌>>=◌, ◌>>◌, guard, with_ok, Result-cases, Bool-cases, ok-injective, if◌then◌else◌, length, take,
  drop, get_elem?, ltb, leb, ◌==◌, ==_iff, lookup-insert, lookup-remove, lookup-insert_self,
  dict_laws, arith,
}
use syntropy.Mcp.Protocol.{McpError, breaker_open}

pub data CircuitState : Type 0 where
  closed opened half_open : CircuitState

pub record CircuitBreakerConfig : Type 0 where
  pub failure_threshold : ℕ
  pub reset_timeout : ℕ
  pub request_timeout : ℕ

pub record CircuitBreaker : Type 0 where
  pub state : CircuitState
  pub consecutive_failures : ℕ
  pub failure_threshold : ℕ
  pub reset_timeout : ℕ
  pub opened_at : Option ℕ

unfoldable pub new_breaker : CircuitBreakerConfig → CircuitBreaker
new_breaker config = record {
  state = closed;
  consecutive_failures = 0;
  failure_threshold = config.failure_threshold;
  reset_timeout = config.reset_timeout;
  opened_at = none;
}

-- `if let Some(opened) = self.opened_at { if opened.elapsed() >= self.reset_timeout { .. } }`
abbrev pub has_waited : Option ℕ → ℕ → ℕ → Bool
has_waited none reset now = false
has_waited (some since) reset now = leb reset (now - since)

abbrev pub refusal : McpError
refusal = breaker_open (lit "Circuit breaker is open: MCP server is unresponsive")

unfoldable pub can_execute : ℕ → CircuitBreaker → Result McpError (Unit {0}) × CircuitBreaker
can_execute now b = elim b.state [
  | closed ↦ (ok tt, b)
  | opened ↦
      if has_waited b.opened_at b.reset_timeout now
      then (ok tt, record b { state = half_open })
      else (err refusal, b)
  | half_open ↦ (ok tt, b)
]

unfoldable pub record_success : CircuitBreaker → CircuitBreaker
record_success b = record b { state = closed; consecutive_failures = 0; opened_at = none }

abbrev pub is_half_open : CircuitState → Bool
is_half_open half_open = true
is_half_open closed = false
is_half_open opened = false

-- The counter is a `u32`.
unfoldable pub record_failure : ℕ → CircuitBreaker → CircuitBreaker
record_failure now b =
    let failures = (b.consecutive_failures + 1) % 2 ^ 32 in
    if is_half_open b.state || leb b.failure_threshold failures
    then record b { state = opened; consecutive_failures = failures; opened_at = some now }
    else record b { consecutive_failures = failures }
