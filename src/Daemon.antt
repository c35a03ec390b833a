-- ===== src/Daemon.antt =====
-- syntropy-daemon/src/orchestrator.rs: the orchestrator, which handles the frames of the server with
-- the ledger, the jail, the screens, the patches and the allowlist.
pub mod Audited
pub mod Config
pub mod Forward
pub mod Setup
pub mod Service
use syntropy.Prelude.{
  Option-cases, ◌^◌, ℕ, zero, suc, ◌≡◌, ◌≢◌, ◌↔◌, ◌⊎◌, inl, inr, ◌≤◌, ◌<◌, ◌+◌, ◌-◌, ◌*◌, ◌%◌, ◌/◌,
  min, max, refl, sym, ap, ◌∙◌, Bool, true, false, not, ◌&&◌, ◌||◌, Option, none, some, List, [],
  ◌∷◌, ◌++◌, map, Text, lit, text_eq, text_eq_iff, text_eq_refl, Dict, lookup, insert, remove,
  Result, ok, err, ◌>>=◌, ◌>>◌, guard, with_ok, Result-cases, Bool-cases, ok-injective,
  if◌then◌else◌, length, take, drop, get_elem?, ltb, leb, ◌==◌, ==_iff, lookup-insert,
  lookup-remove, lookup-insert_self, dict_laws, arith,
}
use syntropy.Prelude.{contains, find?, starts_with}
use syntropy.Security.Crypto.{Crypto}
use syntropy.Security.Ledger.Database.{I64, negsuc, LedgerError, AuditEntry, Sqlite}
use syntropy.Security.Ledger.{append}
use syntropy.Exec.Jail.{FileSystem, WorkspaceJail, JailError, resolve_path, validate_cwd}
use syntropy.Exec.Screens.{PtyError, SpawnOptions, default_options, Attempt}
use syntropy.Exec.Screens.Table.{Screens, Started, spawn_screen, write_input, resize, terminate}
use syntropy.Exec.Diff.{DiffError}
use syntropy.Exec.Diff.Commit.{Surroundings, PatchOptions, PatchApplyResult, Files}
use syntropy.Exec.Diff.Parser.{apply_patch}
use syntropy.Mcp.Allowlist.{ToolAllowlist, is_allowed}
use syntropy.Tunnel.Frames.{
  Heartbeat, ExecCommand, ApplyPatch, TerminalOutputChunk, TerminalInputChunk, PatchResult,
  McpInvokeRequest, McpInvokeResponse, ApprovalRequest, ApprovalResponse, Reply, Request,
  terminal_output, patch_result, mcp_response, approval_response, heartbeat_ack, exec_request,
  terminal_input, patch_request, mcp_request, approval_request, heartbeat_request, other_request,
}

-- The chunk that reports an error, with the exit code -1.
abbrev pub error_chunk : Text → Text → Reply
error_chunk session_id message = terminal_output (record {
  session_id = session_id;
  bytes = message;
  is_stderr = true;
  is_eof = true;
  exit_code = negsuc 0;
})

abbrev pub failed_patch : ApplyPatch → Text → Reply
failed_patch patch message = patch_result (record {
  patch_id = patch.patch_id;
  file_path = patch.file_path;
  success = false;
  error_message = message;
  new_sha256 = [];
  lines_added = 0;
  lines_removed = 0;
})

abbrev pub failed_call : McpInvokeRequest → Text → Reply
failed_call req message = mcp_response (record {
  invocation_id = req.invocation_id;
  success = false;
  result_json = [];
  error_message = message;
})

-- The options of a patch: no parents are made and no id is given.
abbrev pub options_of : ApplyPatch → PatchOptions
options_of patch = record {
  patch_id = none;
  expected_sha256 = if text_eq patch.expected_sha256 [] then none else some patch.expected_sha256;
  dry_run = patch.dry_run;
  create_parents = false;
}

-- What a call meets outside: clocks, the outcome of a spawn and of a write, what surrounds a patch,
-- the JSON that is made, and the texts of the errors.
pub record Outside (fs : FileSystem) : Type 0 where
  pub timestamp : Text
  pub now : ℕ
  pub spawned_as : Started
  pub attempt : Attempt
  pub surroundings : Surroundings
  pub exec_json : ExecCommand → Text
  pub tool_json : McpInvokeRequest → Text
  pub to_uppercase : Text → Text
  pub ledger_text : LedgerError → Text
  pub jail_text : JailError fs → Text
  pub diff_text : DiffError → Text
  pub pty_text : PtyError → Text

module _ (c : Crypto) (s : Sqlite) (fs : FileSystem) where
  pub record Orchestrator : Type 0 where
    pub agent_id : Text
    pub jail : WorkspaceJail fs
    pub allowlist : ToolAllowlist

  -- What the orchestrator acts on, and the replies that it sent.
  pub record Machine : Type 0 where
    pub poisoned : Bool
    pub db : s.Db
    pub files : Files
    pub screens : Screens
    pub replies : List Reply

  abbrev pub reply : Reply → Machine → Machine
  reply r m = record m { replies = m.replies ++ r ∷ [] }

  -- `l.append(&self.agent_id, action_type, payload)`
  abbrev pub audit :
      Orchestrator → Outside fs → Text → Text → Machine → Result LedgerError AuditEntry × s.Db
  audit o w action_type payload m =
      append c s m.poisoned m.db w.timestamp o.agent_id action_type payload

  abbrev pub screen_of : Orchestrator → ExecCommand → Text
  screen_of o cmd =
      if not (text_eq cmd.command_id []) then cmd.command_id else lit "screen-" ++ o.agent_id

  -- The variables whose names hold neither word.
  unfoldable pub safe_env : (Text → Text) → Dict Text → Dict Text → Dict Text
  unfolding find? insert
  safe_env upper [] env = env
  safe_env upper ((k, v) ∷ vars) env = safe_env upper vars (
      if not (contains (lit "TOKEN") (upper k)) && not (contains (lit "SECRET") (upper k))
      then insert k v env
      else env)

  unfoldable pub spawn_options : Outside fs → ExecCommand → fs.PathBuf → SpawnOptions
  unfolding safe_env
  spawn_options w cmd dir =
      let sized = cmd.pty && ltb 0 cmd.pty_rows && ltb 0 cmd.pty_cols in
      let defaults = default_options cmd.command in
      record defaults {
        args = cmd.args;
        cwd = some (fs.to_text dir);
        env = safe_env w.to_uppercase cmd.env [];
        pty = cmd.pty;
        rows = if sized then cmd.pty_rows % 2 ^ 16 else defaults.rows;
        cols = if sized then cmd.pty_cols % 2 ^ 16 else defaults.cols;
      }

  abbrev pub cwd_of : ExecCommand → Option fs.PathBuf
  cwd_of cmd = if text_eq cmd.working_dir [] then none else some (fs.of_text cmd.working_dir)

  -- The command, once it is in the ledger. The chunks of a screen that starts go on as they come.
  unfoldable pub run_command : Orchestrator → Outside fs → ExecCommand → Machine → Machine
  unfolding spawn_options spawn_screen validate_cwd
  run_command o w cmd m = elim (validate_cwd o.jail (cwd_of cmd)) [
    | err e ↦
        reply
          (error_chunk (screen_of o cmd)
            (lit "Security error: CWD rejected by workspace jail: " ++ (w.jail_text e ++ lit "\n")))
          m
    | ok dir ↦
        let (r, screens) =
          spawn_screen (screen_of o cmd) (spawn_options w cmd dir) w.now w.spawned_as m.screens in
        elim r [
          | ok u ↦ record m { screens = screens }
          | err e ↦
              reply
                (error_chunk (screen_of o cmd)
                  (lit "Failed to spawn process: " ++ (w.pty_text e ++ lit "\n")))
                (record m { screens = screens })
        ]
  ]

  unfoldable pub handle_exec_command : Orchestrator → Outside fs → ExecCommand → Machine → Machine
  unfolding run_command append
  handle_exec_command o w cmd m =
      let (r, db) = audit o w (lit "exec_command") (w.exec_json cmd) m in
      elim r [
        | err e ↦
            reply
              (error_chunk (screen_of o cmd) (
                lit "Security error: Audit ledger failed to record action: "
                ++ (w.ledger_text e ++ lit "\n")))
              (record m { db = db })
        | ok entry ↦ run_command o w cmd (record m { db = db })
      ]

  -- Input for a screen, which is not audited; the results of the calls are left out.
  unfoldable pub handle_terminal_input : Outside fs → TerminalInputChunk → Machine → Machine
  unfolding resize terminate write_input
  handle_terminal_input w input m =
      let rows = input.pty_rows % 2 ^ 16 in
      let cols = input.pty_cols % 2 ^ 16 in
      if input.resize
      then record m { screens = (resize input.session_id rows cols w.attempt m.screens).1 }
      else if input.is_eof
      then record m { screens = (terminate input.session_id m.screens).1 }
      else if not (text_eq input.bytes [])
      then record m { screens = (write_input input.session_id input.bytes w.attempt m.screens).1 }
      else m

  abbrev pub result_of : ApplyPatch → PatchApplyResult → Reply
  result_of patch r = patch_result (record {
    patch_id = patch.patch_id;
    file_path = patch.file_path;
    success = r.success;
    error_message = [];
    new_sha256 = r.new_sha256;
    lines_added = r.lines_added;
    lines_removed = r.lines_removed;
  })

  -- The patch, once it is in the ledger.
  unfoldable pub run_patch : Orchestrator → Outside fs → ApplyPatch → Machine → Machine
  unfolding resolve_path apply_patch
  run_patch o w patch m = elim (resolve_path o.jail (fs.of_text patch.file_path)) [
    | err e ↦ reply (failed_patch patch (lit "Jail path violation: " ++ w.jail_text e)) m
    | ok p ↦
        let (r, files) =
          apply_patch c patch.diff w.surroundings (fs.to_text p) (options_of patch) m.files in
        elim r [
          | ok done ↦ reply (result_of patch done) (record m { files = files })
          | err e ↦ reply (failed_patch patch (w.diff_text e)) (record m { files = files })
        ]
  ]

  unfoldable pub handle_apply_patch : Orchestrator → Outside fs → ApplyPatch → Machine → Machine
  unfolding run_patch append
  handle_apply_patch o w patch m =
      let (r, db) = audit o w (lit "apply_patch") patch.diff m in
      elim r [
        | err e ↦
            reply (failed_patch patch (lit "Audit ledger failure: " ++ w.ledger_text e))
              (record m { db = db })
        | ok entry ↦ run_patch o w patch (record m { db = db })
      ]

  -- A tool that is allowed is acknowledged, and not called.
  unfoldable pub handle_mcp_request :
      Orchestrator → Outside fs → McpInvokeRequest → Machine → Machine
  unfolding is_allowed append
  handle_mcp_request o w req m =
      let (r, db) = audit o w (lit "mcp_invoke") req.arguments_json m in
      elim r [
        | err e ↦
            reply (failed_call req (lit "Audit ledger failure: " ++ w.ledger_text e))
              (record m { db = db })
        | ok entry ↦
            if is_allowed o.allowlist req.tool_name
            then reply
                (mcp_response (record {
                  invocation_id = req.invocation_id;
                  success = true;
                  result_json = w.tool_json req;
                  error_message = [];
                }))
                (record m { db = db })
            else reply
                (failed_call req
                  (lit "Tool '" ++ (req.tool_name ++ lit "' is forbidden by security policy")))
                (record m { db = db })
      ]

  unfoldable pub handle_approval_request : Outside fs → ApprovalRequest → Machine → Machine
  unfolding starts_with
  handle_approval_request w req m =
      let approved = not (starts_with (lit "destructive_") req.action_type) in
      reply
        (approval_response (record {
          request_id = req.request_id;
          approved = approved;
          reason =
              if approved
              then lit "Auto-authorized by local policy"
              else lit "Pending operator signature";
          approved_by = lit "syntropy-daemon-policy";
          responded_at_unix = w.now;
        }))
        m

  unfoldable pub handle_frame : Orchestrator → Outside fs → Option Request → Machine → Machine
  unfolding handle_exec_command handle_terminal_input handle_apply_patch handle_mcp_request
      handle_approval_request
  handle_frame o w none m = m
  handle_frame o w (some (exec_request cmd)) m = handle_exec_command o w cmd m
  handle_frame o w (some (terminal_input input)) m = handle_terminal_input w input m
  handle_frame o w (some (patch_request patch)) m = handle_apply_patch o w patch m
  handle_frame o w (some (mcp_request req)) m = handle_mcp_request o w req m
  handle_frame o w (some (approval_request req)) m = handle_approval_request w req m
  handle_frame o w (some (heartbeat_request hb)) m =
      reply
        (heartbeat_ack (record {
          sequence = hb.sequence;
          timestamp_unix_ms = w.now;
          agent_id = o.agent_id;
          is_ack = true;
        }))
        m
  handle_frame o w (some (other_request bytes)) m = m
