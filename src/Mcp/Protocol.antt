-- ===== src/Mcp/Protocol.antt =====
-- protocol.rs: the messages. A JSON value is of a type that the model leaves open.
use syntropy.Prelude.{ℕ, ◌≡◌, Option, none, some, Text, lit, text_eq, if◌then◌else◌}

-- What the program asks of `serde_json::Value`.
pub record JsonValue : Type 1 where
  pub Value : Type 0
  -- `params.get("name").and_then(|v| v.as_str())`
  pub name_of : Value → Option Text
  -- `json!({"name": .., "arguments": ..})`
  pub call_params : Text → Value → Value
  -- `json!(s)`
  pub of_text : Text → Value
  -- `v.to_string()`
  pub to_string : Value → Text
  pub name_of-call_params :
      (name : Text) (arguments : Value) → name_of (call_params name arguments) ≡ some name

-- The codes of the errors are negative: each stands for its distance below zero.
pub data ErrorCode : Type 0 where
  parse_error invalid_request method_not_found invalid_params internal_error : ErrorCode
  tool_forbidden request_timeout circuit_breaker_open : ErrorCode
  other_code : ℕ → ErrorCode

abbrev pub below_zero : ErrorCode → ℕ
below_zero parse_error = 32700
below_zero invalid_request = 32600
below_zero method_not_found = 32601
below_zero invalid_params = 32602
below_zero internal_error = 32603
below_zero tool_forbidden = 32003
below_zero request_timeout = 32004
below_zero circuit_breaker_open = 32005
below_zero (other_code n) = n

module _ (j : JsonValue) where
  pub record JsonRpcRequest : Type 0 where
    pub jsonrpc : Text
    pub id : Option j.Value
    pub method : Text
    pub params : Option j.Value

  pub record JsonRpcError : Type 0 where
    pub code : ErrorCode
    pub message : Text
    pub data_value : Option j.Value

  pub record JsonRpcResponse : Type 0 where
    pub jsonrpc : Text
    pub id : Option j.Value
    pub result : Option j.Value
    pub error : Option (JsonRpcError)

-- Failures of the proxy and the supervisor.
pub data McpError : Type 0 where
  process_spawn_failed process_exited io serialization timeout breaker_open : Text → McpError
  tool_forbidden_error invalid_request_error other : Text → McpError
  channel_closed supervisor_terminated : McpError

module _ {j : JsonValue} where
  -- `JsonRpcRequest::new`
  abbrev pub new_request : Option j.Value → Text → Option j.Value → JsonRpcRequest j
  new_request id method params = record {
    jsonrpc = lit "2.0";
    id = id;
    method = method;
    params = params;
  }

  unfoldable pub tool_call : Option j.Value → Text → j.Value → JsonRpcRequest j
  tool_call id tool_name arguments =
      new_request id (lit "tools/call") (some (j.call_params tool_name arguments))

  unfoldable pub extract_tool_name : JsonRpcRequest j → Option Text
  extract_tool_name r =
      if text_eq r.method (lit "tools/call")
      then elim r.params [ none ↦ none | some params ↦ j.name_of params ]
      else none

  -- `JsonRpcResponse::success`
  abbrev pub success : Option j.Value → j.Value → JsonRpcResponse j
  success id result = record { jsonrpc = lit "2.0"; id = id; result = some result; error = none }

  -- `JsonRpcResponse::error` with `JsonRpcError::new`
  abbrev pub error_response : Option j.Value → ErrorCode → Text → JsonRpcResponse j
  error_response id code message = record {
    jsonrpc = lit "2.0";
    id = id;
    result = none;
    error = some (record { code = code; message = message; data_value = none });
  }
