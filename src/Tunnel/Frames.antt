-- ===== src/Tunnel/Frames.antt =====
-- tunnel.proto: the messages that the gateway, the turn engine and the orchestrator read and make.
-- The payloads of the other messages are bytes.
use syntropy.Prelude.{ℕ, Bool, Option, List, Text, Dict}
use syntropy.Security.Ledger.Database.{I64}

pub record Heartbeat : Type 0 where
  pub sequence : ℕ
  pub timestamp_unix_ms : ℕ
  pub agent_id : Text
  pub is_ack : Bool

pub record UserPrompt : Type 0 where
  pub prompt_id : Text
  pub text : Text
  pub session_id : Text
  pub context_files : Dict Text

pub record ExecCommand : Type 0 where
  pub command_id : Text
  pub command : Text
  pub args : List Text
  pub working_dir : Text
  pub env : Dict Text
  pub timeout_seconds : ℕ
  pub pty : Bool
  pub pty_rows : ℕ
  pub pty_cols : ℕ

pub record ApplyPatch : Type 0 where
  pub patch_id : Text
  pub file_path : Text
  pub diff : Text
  pub expected_sha256 : Text
  pub dry_run : Bool

pub record AgentMessage : Type 0 where
  pub turn_id : Text
  pub content : Text
  pub tool_calls : List Text
  pub is_final : Bool

pub data ServerPayload : Type 0 where
  heartbeat : Heartbeat → ServerPayload
  exec_command : ExecCommand → ServerPayload
  apply_patch : ApplyPatch → ServerPayload
  error_frame : Text → ServerPayload
  agent_message : AgentMessage → ServerPayload
  other_payload : Text → ServerPayload

pub record TunnelServerFrame : Type 0 where
  pub frame_id : Text
  pub timestamp_unix_ms : ℕ
  pub payload : Option ServerPayload

pub data ClientPayload : Type 0 where
  client_heartbeat : Heartbeat → ClientPayload
  user_prompt : UserPrompt → ClientPayload
  other_client_payload : Text → ClientPayload

pub record TunnelClientFrame : Type 0 where
  pub frame_id : Text
  pub timestamp_unix_ms : ℕ
  pub agent_id : Text
  pub payload : Option ClientPayload

pub record TerminalOutputChunk : Type 0 where
  pub session_id : Text
  pub bytes : Text
  pub is_stderr : Bool
  pub is_eof : Bool
  pub exit_code : I64

pub record TerminalInputChunk : Type 0 where
  pub session_id : Text
  pub bytes : Text
  pub is_eof : Bool
  pub resize : Bool
  pub pty_rows : ℕ
  pub pty_cols : ℕ

pub record PatchResult : Type 0 where
  pub patch_id : Text
  pub file_path : Text
  pub success : Bool
  pub error_message : Text
  pub new_sha256 : Text
  pub lines_added : ℕ
  pub lines_removed : ℕ

pub record McpInvokeRequest : Type 0 where
  pub invocation_id : Text
  pub server_name : Text
  pub tool_name : Text
  pub arguments_json : Text

pub record McpInvokeResponse : Type 0 where
  pub invocation_id : Text
  pub success : Bool
  pub result_json : Text
  pub error_message : Text

pub record ApprovalRequest : Type 0 where
  pub request_id : Text
  pub action_type : Text
  pub description : Text

pub record ApprovalResponse : Type 0 where
  pub request_id : Text
  pub approved : Bool
  pub reason : Text
  pub approved_by : Text
  pub responded_at_unix : ℕ

-- What the orchestrator answers.
pub data Reply : Type 0 where
  terminal_output : TerminalOutputChunk → Reply
  patch_result : PatchResult → Reply
  mcp_response : McpInvokeResponse → Reply
  approval_response : ApprovalResponse → Reply
  heartbeat_ack : Heartbeat → Reply

-- What the orchestrator is asked.
pub data Request : Type 0 where
  exec_request : ExecCommand → Request
  terminal_input : TerminalInputChunk → Request
  patch_request : ApplyPatch → Request
  mcp_request : McpInvokeRequest → Request
  approval_request : ApprovalRequest → Request
  heartbeat_request : Heartbeat → Request
  other_request : Text → Request
