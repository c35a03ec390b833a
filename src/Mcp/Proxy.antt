-- ===== src/Mcp/Proxy.antt =====
-- proxy.rs: `McpProxy`, which checks a request against the allowlist and the circuit breaker before
-- it is passed on.
pub mod Guards
use syntropy.Prelude.{
  ◌^◌, ℕ, zero, suc, ◌≡◌, ◌≢◌, ◌↔◌, ◌⊎◌, inl, inr, ◌≤◌, ◌<◌, ◌+◌, ◌-◌, ◌*◌, ◌%◌, ◌/◌, min, max,
  refl, sym, ap, ◌∙◌, Bool, true, false, not, ◌&&◌, ◌||◌, Option, none, some, List, [], ◌∷◌, ◌++◌,
  map, Text, lit, text_eq, text_eq_iff, text_eq_refl, Dict, lookup, insert, remove, Result, ok, err,
  ◌>>=◌, ◌>>◌, guard, with_ok, Result-cases, Bool-cases, ok-injective, if◌then◌else◌, length, take,
  drop, get_elem?, ltb, leb, ◌==◌, ==_iff, lookup-insert, lookup-remove, lookup-insert_self,
  dict_laws, arith,
}
use syntropy.Mcp.Protocol.{
  JsonValue, JsonRpcRequest, JsonRpcResponse, error_response, extract_tool_name, McpError, other,
  invalid_params, tool_forbidden, circuit_breaker_open, request_timeout, parse_error,
}
use syntropy.Mcp.Allowlist.{ToolAllowlist, is_allowed}
use syntropy.Mcp.Breaker
use syntropy.Mcp.Breaker.{
  CircuitBreaker, CircuitBreakerConfig, new_breaker, can_execute, record_success, record_failure,
}

-- `poisoned` says that a holder of the breaker's lock has panicked. A duration is a number.
pub record McpProxy : Type 0 where
  pub allowlist : ToolAllowlist
  pub circuit_breaker : CircuitBreaker
  pub poisoned : Bool
  pub timeout : ℕ

unfoldable pub new_proxy : ToolAllowlist → ℕ → CircuitBreakerConfig → McpProxy
unfolding new_breaker
new_proxy allowlist timeout config = record {
  allowlist = allowlist;
  circuit_breaker = new_breaker config;
  poisoned = false;
  timeout = timeout;
}

module _ (j : JsonValue) where
  -- What becomes of the forwarder's future under the timeout.
  pub data Outcome : Type 0 where
    replied : JsonRpcResponse j → Outcome
    failed : McpError → Outcome
    timed_out : Outcome

  -- What one call meets outside: the clock at the check and at the end, what the forwarder comes to,
  -- and how a duration is printed.
  pub record Circumstances : Type 0 where
    pub asked_at : ℕ
    pub ended_at : ℕ
    pub forwarder : JsonRpcRequest j → Outcome
    pub show_duration : ℕ → Text

  -- What one call leaves: its result, the proxy, and the requests that reached the forwarder.
  pub record Passage : Type 0 where
    pub answer : Result McpError (JsonRpcResponse j)
    pub proxy : McpProxy
    pub forwarded : List (JsonRpcRequest j)

abbrev pub poisoned_lock : McpError
poisoned_lock = other (lit "Circuit breaker lock poisoned")

module _ {j : JsonValue} where
  unfoldable pub filter_request :
      McpProxy → JsonRpcRequest j → Result (JsonRpcResponse j) (Unit {0})
  filter_request p request =
      if text_eq request.method (lit "tools/call")
      then elim (extract_tool_name request) [
        | none ↦ err (
            error_response request.id invalid_params
              (lit "Missing tool 'name' in tools/call parameters"))
        | some tool_name ↦
            if is_allowed p.allowlist tool_name
            then ok tt
            else err (
                error_response request.id tool_forbidden
                  (lit "Tool '" ++ (tool_name ++ lit "' is not permitted by allowlist")))
      ]
      else ok tt

  -- The end of the call, once the forwarder has come to something.
  unfoldable pub settle : Circumstances j → McpProxy → JsonRpcRequest j → Outcome j → Passage j
  settle w p request outcome =
      if p.poisoned
      then record { answer = err poisoned_lock; proxy = p; forwarded = request ∷ [] }
      else elim outcome [
        | replied response ↦ record {
          answer = ok response;
          proxy = record p { circuit_breaker = record_success p.circuit_breaker };
          forwarded = request ∷ [];
        }
        | failed e ↦ record {
          answer = err e;
          proxy = record p { circuit_breaker = record_failure w.ended_at p.circuit_breaker };
          forwarded = request ∷ [];
        }
        | timed_out ↦ record {
          answer = ok (
              error_response request.id request_timeout
                (lit "Request timed out after " ++ w.show_duration p.timeout));
          proxy = record p { circuit_breaker = record_failure w.ended_at p.circuit_breaker };
          forwarded = request ∷ [];
        }
      ]

  -- The call after the filter: the breaker, and the forwarder.
  unfoldable pub pass_on : Circumstances j → McpProxy → JsonRpcRequest j → Passage j
  unfolding settle
  pass_on w p request =
      let (allowed, cb) = can_execute w.asked_at p.circuit_breaker in
      elim allowed [
        | err e ↦ record {
          answer = ok (
              error_response request.id circuit_breaker_open
                (lit "Circuit breaker is open: MCP server is unresponsive"));
          proxy = record p { circuit_breaker = cb };
          forwarded = [];
        }
        | ok _ ↦ settle w (record p { circuit_breaker = cb }) request (w.forwarder request)
      ]

  unfoldable pub forward_request : Circumstances j → McpProxy → JsonRpcRequest j → Passage j
  unfolding pass_on
  forward_request w p request = elim (filter_request p request) [
    | err forbidden_response ↦ record { answer = ok forbidden_response; proxy = p; forwarded = [] }
    | ok _ ↦
        if p.poisoned
        then record { answer = err poisoned_lock; proxy = p; forwarded = [] }
        else pass_on w p request
  ]
