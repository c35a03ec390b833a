-- ===== src/Swarm/Turn.antt =====
-- swarm-orchestrator/src/turn.rs: a turn: its history, the call of the model, and the frames for the
-- agent.
pub mod Plan
use syntropy.Prelude.{
  Option-cases, ◌^◌, ℕ, zero, suc, ◌≡◌, ◌≢◌, ◌↔◌, ◌⊎◌, inl, inr, ◌≤◌, ◌<◌, ◌+◌, ◌-◌, ◌*◌, ◌%◌, ◌/◌,
  min, max, refl, sym, ap, ◌∙◌, Bool, true, false, not, ◌&&◌, ◌||◌, Option, none, some, List, [],
  ◌∷◌, ◌++◌, map, Text, lit, text_eq, text_eq_iff, text_eq_refl, Dict, lookup, insert, remove,
  Result, ok, err, ◌>>=◌, ◌>>◌, guard, with_ok, Result-cases, Bool-cases, ok-injective,
  if◌then◌else◌, length, take, drop, get_elem?, ltb, leb, ◌==◌, ==_iff, lookup-insert,
  lookup-remove, lookup-insert_self, dict_laws, arith,
}
use syntropy.Tunnel.Frames.{
  UserPrompt, ExecCommand, ApplyPatch, AgentMessage, ServerPayload, exec_command, apply_patch,
  agent_message, TunnelServerFrame,
}
use syntropy.Swarm.Gemini.{
  and_then, unwrap_or, ChatMessage, GeminiConfig, ModelApi, GeminiToolCall, GeminiTurnResult,
  text_at, generate_turn,
}

pub record TurnExecutionPlan : Type 0 where
  pub prompt_id : Text
  pub agent_message : AgentMessage
  pub server_frames_to_send : List TunnelServerFrame
  pub is_dev_mock : Bool

abbrev pub Histories : Type 0
Histories = Dict (List ChatMessage)

-- The new ids and the times that the turn reads, by their numbers.
pub record TurnStamps : Type 0 where
  pub uuid : ℕ → Text
  pub now : ℕ → ℕ

unfoldable pub get_session_history : Text → Histories → List ChatMessage
unfolding lookup
get_session_history session_id sessions = unwrap_or [] (lookup session_id sessions)

unfoldable pub clear_session : Text → Histories → Histories
unfolding remove
clear_session session_id sessions = remove session_id sessions

abbrev pub system_directive : Text → Text
system_directive agent_id =
    lit
      "You are an autonomous engineering agent connected to host workspace via Syntropy.\nHost Operating System: Unix / Linux (sh, bash, ls, git, cargo)\nAgent ID: "
    ++ (agent_id
        ++ lit
            "\nYou have access to tools: 'exec_command' (run commands inside the canonical virtual PTY sandbox) and 'apply_patch' (apply atomic diffs).\nAlways formulate valid executable commands for the host operating system.")

-- A prompt without a session has no history.
unfoldable pub prompt_history : UserPrompt → Histories → List ChatMessage
unfolding get_session_history text_eq
prompt_history prompt sessions =
    if not (text_eq prompt.session_id [])
    then get_session_history prompt.session_id sessions
    else []

abbrev pub messages_of : UserPrompt → Text → List ChatMessage
messages_of prompt content =
    record { role = lit "user"; text = prompt.text }
    ∷ (if not (text_eq content []) then record { role = lit "model"; text = content } ∷ [] else [])

-- The turn is recorded with the history that is there now.
unfoldable pub record_turn : UserPrompt → Text → Histories → Histories
unfolding get_session_history insert text_eq
record_turn prompt content sessions =
    if not (text_eq prompt.session_id [])
    then insert prompt.session_id
        (get_session_history prompt.session_id sessions ++ messages_of prompt content) sessions
    else sessions

module _ (j : ModelApi) where
  abbrev pub strings_of : List j.Value → List Text
  strings_of [] = []
  strings_of (v ∷ vs) =
      let rest = strings_of vs in elim (j.as_str v) [ none ↦ rest | some s ↦ s ∷ rest ]

  abbrev pub exec_of : TurnStamps → ℕ → j.Value → ServerPayload
  exec_of s n args = exec_command (record {
    command_id = lit "cmd-" ++ s.uuid (2 * n);
    command = unwrap_or (lit "dir") (text_at j (lit "command") args);
    args = strings_of (unwrap_or [] (and_then (j.get (lit "args") args) j.as_array));
    working_dir = [];
    env = [];
    timeout_seconds = 30;
    pty = true;
    pty_rows = 24;
    pty_cols = 80;
  })

  abbrev pub patch_of : TurnStamps → ℕ → j.Value → ServerPayload
  patch_of s n args = apply_patch (record {
    patch_id = lit "patch-" ++ s.uuid (2 * n);
    file_path = unwrap_or (lit "output.txt") (text_at j (lit "file_path") args);
    diff = unwrap_or [] (text_at j (lit "diff") args);
    expected_sha256 = [];
    dry_run = false;
  })

  abbrev pub frame_of : TurnStamps → ℕ → ServerPayload → TunnelServerFrame
  frame_of s n payload = record {
    frame_id = s.uuid (2 * n + 1);
    timestamp_unix_ms = s.now n;
    payload = some payload;
  }

  -- The `match` on the name of a tool.
  unfoldable pub payload_of : TurnStamps → ℕ → GeminiToolCall j → Option ServerPayload
  unfolding text_eq
  payload_of s n tc =
      if text_eq tc.name (lit "exec_command")
      then some (exec_of s n tc.args)
      else if text_eq tc.name (lit "apply_patch")
      then some (patch_of s n tc.args)
      else none

  unfoldable pub frames_of : TurnStamps → ℕ → List (GeminiToolCall j) → List TunnelServerFrame
  unfolding payload_of
  frames_of s n [] = []
  frames_of s n (tc ∷ tcs) =
      let rest = frames_of s (n + 1) tcs in
      elim (payload_of s n tc) [ none ↦ rest | some p ↦ frame_of s n p ∷ rest ]

  abbrev pub names_of : List (GeminiToolCall j) → List Text
  names_of [] = []
  names_of (tc ∷ tcs) = tc.name ∷ names_of tcs

  abbrev pub message_of : TurnStamps → GeminiTurnResult j → AgentMessage
  message_of s result = record {
    turn_id = lit "turn-" ++ s.uuid (2 * length result.tool_calls);
    content = result.content;
    tool_calls = names_of result.tool_calls;
    is_final = true;
  }

  unfoldable pub plan_of : TurnStamps → UserPrompt → GeminiTurnResult j → TurnExecutionPlan
  unfolding frames_of
  plan_of s prompt result =
      let message = message_of s result in
      record {
        prompt_id = prompt.prompt_id;
        agent_message = message;
        server_frames_to_send =
            frames_of s 0 result.tool_calls
            ++ frame_of s (length result.tool_calls) (agent_message message) ∷ [];
        is_dev_mock = result.is_dev_mock;
      }

  -- `process_prompt`, where no other turn of the session ends in between.
  unfoldable pub process_prompt :
      GeminiConfig
      → TurnStamps
      → UserPrompt
      → Text
      → Histories
      → Result Text TurnExecutionPlan × Histories
  unfolding prompt_history generate_turn record_turn plan_of
  process_prompt config s prompt agent_id sessions =
      elim (generate_turn j config prompt.text (system_directive agent_id)
        (prompt_history prompt sessions)) [
          | err e ↦ (err e, sessions)
          | ok result ↦ (ok (plan_of s prompt result), record_turn prompt result.content sessions)
        ]
