-- ===== src/Mcp/Proxy/Guards.antt =====
-- proxy.rs: what the proxy keeps from the tool server, and what it tells its circuit breaker.
use syntropy.Prelude.{
  Option-cases, ℕ, ◌≡◌, ◌≢◌, ◌↔◌, ◌⊎◌, inl, inr, ◌<◌, ◌-◌, true, some, [], ◌∷◌, Text, lit,
  text_eq_iff, ok, Bool-cases, arith,
}
use syntropy.Mcp.Protocol.{JsonValue, JsonRpcRequest, extract_tool_name}
use syntropy.Mcp.Allowlist.{is_allowed}
use syntropy.Mcp.Breaker.{opened, can_execute}
use syntropy.Mcp.Breaker.Trips.{can_execute_opened}
use syntropy.Mcp.Proxy.{McpProxy, Circumstances, filter_request, pass_on, settle, forward_request}

module _ {j : JsonValue} where
  -- The request may pass the filter: it calls no tool, or one that the allowlist admits.
  unfoldable pub Admitted : McpProxy → JsonRpcRequest j → Type 0
  Admitted p request =
      (request.method ≢ lit "tools/call")
      ⊎ ((tool_name : Text) × (extract_tool_name request ≡ some tool_name)
          × (is_allowed p.allowlist tool_name ≡ true))

  -- The filter lets a request pass exactly when it calls no tool, or names one that the allowlist
  -- admits.
  pub filter_request_iff :
      (p : McpProxy) (request : JsonRpcRequest j)
      → (filter_request p request ≡ ok tt) ↔ Admitted p request
  unfolding filter_request Admitted
  filter_request_iff p request =
      let same = text_eq_iff request.method (lit "tools/call") in
      elim (Option-cases (extract_tool_name request)) [
        | inl unnamed ↦ (λ h. inl (ground (arith, same)), λ h. ground (arith, same))
        | inr (name, named) ↦ elim (Bool-cases (is_allowed p.allowlist name)) [
          | inl t ↦ (λ h. inr (name, named, t), λ h. ground (arith, same))
          | inr f ↦ (λ h. inl (ground (arith, same)), λ h. ground (arith, same))
        ]
      ]

  -- Whatever the forwarder does, at most the request itself reaches it, and only when the filter
  -- and the circuit breaker let it pass.
  pub forward_request_guarded :
      (w : Circumstances j) (p : McpProxy) (request : JsonRpcRequest j)
      → ((forward_request w p request).forwarded ≡ [])
        ⊎ (((forward_request w p request).forwarded ≡ request ∷ [])
            × Admitted p request
            × ((can_execute w.asked_at p.circuit_breaker).0 ≡ ok tt))
  unfolding forward_request pass_on settle
  forward_request_guarded w p request = ground (arith, filter_request_iff p request)

  -- While the circuit breaker is open and its reset timeout has not passed, nothing is forwarded
  -- and the proxy stays as it is.
  pub forward_request_opened :
      (w : Circumstances j) (p : McpProxy) (request : JsonRpcRequest j) (since : ℕ)
      → p.circuit_breaker.state ≡ opened
      → p.circuit_breaker.opened_at ≡ some since
      → w.asked_at - since < p.circuit_breaker.reset_timeout
      → ((forward_request w p request).forwarded ≡ []) × ((forward_request w p request).proxy ≡ p)
  unfolding forward_request pass_on
  forward_request_opened w p request since is_open at early =
      ground (arith, can_execute_opened p.circuit_breaker w.asked_at since is_open at)
