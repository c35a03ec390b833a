-- ===== src/Tests/McpTests.antt =====
-- The proxy and the supervisor on small runs, with texts for JSON values.
use syntropy.Prelude.{◌+◌, ◌<◌, ◌^◌, err, true, length, arith}
use syntropy.Mcp.Protocol.{McpError, JsonRpcRequest}
use syntropy.Mcp.Supervisor.{Sending, send_request, new_config}
use syntropy.Mcp.Supervisor.Loop.{
  Child, lives, asks, without_pipes, run_loop, run_loop_ends, new_supervisor,
}
use syntropy.Prelude.{
  ◌≡◌, ◌↔◌, ◌⊎◌, inl, refl, true, false, none, some, [], ◌∷◌, Text, lit, text_eq, lookup, insert,
  remove, ok,
}
use syntropy.Prelude.{starts_with, ends_with, strip_prefix?, strip_suffix?}
use syntropy.Mcp.Protocol.{JsonValue, JsonRpcRequest, extract_tool_name, new_request, success}
use syntropy.Mcp.Allowlist.{is_allowed}
use syntropy.Mcp.Allowlist.Patterns.{SomeFits, is_allowed_iff}
use syntropy.Mcp.Breaker.{
  CircuitBreaker, closed, opened, can_execute, record_success, record_failure, new_breaker,
  CircuitBreakerConfig,
}
use syntropy.Mcp.Breaker.Trips
use syntropy.Mcp.Breaker.Trips.{
  IsConsistent, asked, failed, succeeded, after_all, failures_at, after_all-IsConsistent,
  after_all_failures_iff,
}
use syntropy.Mcp.Proxy.{
  McpProxy, Circumstances, timed_out, new_proxy, filter_request, pass_on, settle, forward_request,
}
use syntropy.Mcp.Proxy.Guards.{Admitted, forward_request_guarded}
use syntropy.Mcp.Supervisor.{Supervisor, McpServerConfig, new_config}
use syntropy.Mcp.Supervisor.Callers
use syntropy.Mcp.Supervisor.Callers.{
  IsTracked, is_told, Event, line, after-IsTracked, on_exit_tells_nobody,
}

program : Unit {0}
unfolding text_eq lookup insert remove starts_with ends_with strip_prefix? strip_suffix?
    extract_tool_name is_allowed can_execute record_success record_failure new_breaker Trips.after
    after_all failures_at filter_request pass_on settle forward_request IsConsistent new_config
    new_proxy IsTracked
program = tt

-- A JSON value is a text, and the parameters of a call are the name of the tool.
abbrev toy_json_value : JsonValue
toy_json_value = record {
  Value = Text;
  name_of = λ t. some t;
  call_params = λ name arguments. name;
  of_text = λ t. t;
  to_string = λ t. t;
  name_of-call_params = λ name arguments. refl;
}

abbrev call : Text → JsonRpcRequest toy_json_value
call name = new_request (some (lit "1")) (lit "tools/call") (some name)

is_allowed_iff_example :
    (is_allowed (lit "fs_*" ∷ []) (lit "fs_read") ≡ true)
    ↔ SomeFits (lit "fs_*" ∷ []) (lit "fs_read")
is_allowed_iff_example = is_allowed_iff (lit "fs_*" ∷ []) (lit "fs_read")

allows_prefix : is_allowed (lit "git" ∷ lit "fs_*" ∷ []) (lit "fs_read") ≡ true
unfolding program
allows_prefix = refl

forbids_other : is_allowed (lit "git" ∷ lit "fs_*" ∷ lit "*_log" ∷ []) (lit "exec") ≡ false
unfolding program
forbids_other = refl

abbrev config : CircuitBreakerConfig
config = record { failure_threshold = 2; reset_timeout = 5; request_timeout = 30 }

abbrev fresh_breaker : CircuitBreaker
fresh_breaker = record {
  state = closed;
  consecutive_failures = 0;
  failure_threshold = 2;
  reset_timeout = 5;
  opened_at = none;
}

abbrev proxy : McpProxy
proxy = record {
  allowlist = lit "fs_*" ∷ [];
  circuit_breaker = fresh_breaker;
  poisoned = false;
  timeout = 30;
}

abbrev open_proxy : McpProxy
open_proxy = record proxy {
  circuit_breaker = record fresh_breaker {
    state = opened;
    consecutive_failures = 2;
    opened_at = some 10;
  };
}

abbrev hanging : Circumstances toy_json_value
hanging = record {
  asked_at = 12;
  ended_at = 42;
  forwarder = λ r. timed_out;
  show_duration = λ n. lit "30s";
}

-- A call of a tool that hangs is forwarded and counted; a forbidden one does not get that far.
hangs :
    (forward_request hanging proxy (call (lit "fs_read"))
      ).proxy.circuit_breaker.consecutive_failures
    ≡ 1
unfolding program
hangs = refl

stays_home : (forward_request hanging proxy (call (lit "exec"))).forwarded ≡ []
unfolding program
stays_home = refl

forward_request_guarded_example :
    ((forward_request hanging proxy (call (lit "exec"))).forwarded ≡ [])
    ⊎ (((forward_request hanging proxy (call (lit "exec"))).forwarded ≡ call (lit "exec") ∷ [])
        × Admitted proxy (call (lit "exec"))
        × ((can_execute 12 fresh_breaker).0 ≡ ok tt))
forward_request_guarded_example = forward_request_guarded hanging proxy (call (lit "exec"))

abbrev server : McpServerConfig
server = record {
  name = lit "files";
  command = lit "mcp-files";
  args = [];
  env = [];
  cwd = none;
  auto_restart = true;
  max_restart_attempts = 3;
  restart_backoff_ms = 500;
}

abbrev supervisor : Supervisor toy_json_value
supervisor = record {
  config = server;
  stdin_open = true;
  sent = [];
  pending = (lit "1", 7) ∷ [];
  is_alive = true;
  restart_count = 0;
  shutdown_requested = false;
  settled = [];
}

seven_waits : IsTracked 7 supervisor
unfolding program
seven_waits = inl (lit "1", refl)

after-IsTracked_example :
    IsTracked 7 (Callers.after supervisor (line (some (success (some (lit "1")) (lit "done")))))
after-IsTracked_example =
    after-IsTracked 7 supervisor (line (some (success (some (lit "1")) (lit "done")))) seven_waits

abbrev request_one : JsonRpcRequest toy_json_value
request_one = record {
  jsonrpc = lit "2.0";
  id = some (lit "1");
  method = lit "ping";
  params = none;
}

abbrev sending : Sending toy_json_value
sending = record { uuid = lit "u"; to_json = λ r. some (lit "{}"); channel_takes = true }

abbrev lives_once : Child toy_json_value
lives_once = lives (asks sending 3 request_one ∷ []) []

small : (new_config (lit "s") (lit "c")).max_restart_attempts + 1 < 2 ^ 32
unfolding new_config
small = omega arith

four :
    length (lives_once ∷ lives_once ∷ lives_once ∷ lives_once ∷ [])
    ≡ 1 + (new_config (lit "s") (lit "c")).max_restart_attempts
unfolding new_config
four = refl

run_loop_ends_example :
    (run_loop
        (lives_once ∷ lives_once ∷ lives_once ∷ lives_once ∷ without_pipes ∷ [])
        (new_supervisor (new_config (lit "s") (lit "c")))
      ≡ run_loop
          (lives_once ∷ lives_once ∷ lives_once ∷ lives_once ∷ [])
          (new_supervisor (new_config (lit "s") (lit "c"))))
    × ((e : McpError) × (send_request sending 4 request_one (
            run_loop
              (lives_once ∷ lives_once ∷ lives_once ∷ lives_once ∷ [])
              (new_supervisor (new_config (lit "s") (lit "c"))))
          ≡ (
            err e,
            run_loop
                (lives_once ∷ lives_once ∷ lives_once ∷ lives_once ∷ [])
                (new_supervisor (new_config (lit "s") (lit "c"))),
          )))
run_loop_ends_example =
    run_loop_ends (new_config (lit "s") (lit "c"))
      (lives_once ∷ lives_once ∷ lives_once ∷ lives_once ∷ []) (without_pipes ∷ []) sending 4
      request_one small four
