-- ===== src/Cli/Turn.antt =====
-- syntropy-cli/src/ui.rs: `execute_turn_via_tunnel`, a turn of the local web server. What the
-- gateway and the system answer is a list of arrivals; the turn acts on the ledger, the files and
-- screens of its own.
pub mod Steps
pub mod Contained
pub mod Recorded
pub mod OneCommand
use syntropy.Prelude.{
  ◌^◌, ℕ, zero, suc, ◌≡◌, ◌≤◌, ◌<◌, ◌+◌, ◌%◌, Bool, true, false, ◌&&◌, Option, none, some, List, [],
  ◌∷◌, ◌++◌, Text, lit, text_eq, Dict, lookup, insert, Result, ok, err, ◌>>=◌, ◌>>◌, if◌then◌else◌,
  take, ltb,
}
use syntropy.Cli.Sanitize.{Chars, sanitize_terminal_output}
use syntropy.Security.Crypto.{Crypto}
use syntropy.Security.Ledger.Database.{I64, pos, LedgerError, AuditEntry, Sqlite}
use syntropy.Security.Ledger.{append}
use syntropy.Security.Ledger.Merkle.{compute_merkle_root}
use syntropy.Exec.Jail.{
  FileSystem, WorkspaceJail, JailError, resolve_path, validate_cwd, with_allowed_paths,
}
use syntropy.Exec.Screens.{PtyError, OutputChunk, SpawnOptions, default_options}
use syntropy.Exec.Screens.Table.{Screens, Started, spawn_screen}
use syntropy.Exec.Screens.Threads.{Event, run}
use syntropy.Exec.Diff.{DiffError}
use syntropy.Exec.Diff.Commit.{Surroundings, PatchOptions, PatchApplyResult, Files}
use syntropy.Exec.Diff.Parser.{apply_patch}
use syntropy.Tunnel.Frames.{
  ExecCommand, ApplyPatch, AgentMessage, UserPrompt, ServerPayload, exec_command, error_frame,
  agent_message, heartbeat, other_payload, Reply, terminal_output, patch_result,
}

pub record ChatRequest : Type 0 where
  pub text : Text
  pub session_id : Text

pub record ExecutedTool : Type 0 where
  pub tool_type : Text
  pub command : Text
  pub args : List Text
  pub output : Text
  pub file_path : Text
  pub lines_added : ℕ
  pub lines_removed : ℕ

pub record ChatResponse : Type 0 where
  pub session_id : Text
  pub agent_message : Text
  pub tool_calls : List Text
  pub tool_executions : List ExecutedTool
  pub merkle_root : Text

abbrev pub ui_agent : Text
ui_agent = lit "local-ui-agent"

abbrev pub ui_screen : Text
ui_screen = lit "ui-screen"

-- What handling a frame meets outside: clocks, the outcome of a spawn, what the threads of the
-- screen do and how many chunks come through before the receiver ends, what a command, if it starts,
-- does to the files while the turn waits for it, what surrounds a patch, and the texts of its errors; `String::from_utf8_lossy`, and the bytes of a `String`.
pub record Outside : Type 0 where
  pub timestamp : Text
  pub now : ℕ
  pub spawned_as : Started
  pub events : List Event
  pub received : ℕ
  pub effects : Files → Files
  pub surroundings : Surroundings
  pub diff_text : DiffError → Text
  pub lossy : Text → Chars
  pub utf8 : Chars → Text

-- What `client.recv` comes to within its timeout: a frame, with what handling it meets.
pub data Arrival : Type 0 where
  arrives : Option ServerPayload → Outside → Arrival
  closed silent : Arrival

-- The loop that receives the chunks, up to the one that is the last.
unfoldable pub full_output : List OutputChunk → Text
full_output [] = []
full_output (chunk ∷ chunks) =
    let more = full_output chunks in if chunk.is_eof then chunk.bytes else chunk.bytes ++ more

-- `compute_merkle_root()?.unwrap_or_else(|| "Genesis".into())`; its fuel is enough, so the outer
-- `none` does not occur.
abbrev pub root_text : Option (Option Text) → Text
root_text (some (some root)) = root
root_text (some none) = lit "Genesis"
root_text none = lit "Genesis"

-- The threads of a screen act on its session only.
unfoldable pub serve : List Event → Screens → Screens
unfolding lookup insert run
serve events screens = elim (lookup ui_screen screens) [
  | none ↦ screens
  | some s ↦ insert ui_screen (run events s) screens
]

-- The chunks of the screen that come through to the receiver.
unfoldable pub receive : ℕ → Screens → List OutputChunk
unfolding lookup
receive n screens = elim (lookup ui_screen screens) [ none ↦ [] | some s ↦ take n s.sent ]

unfoldable pub prompt_of : ChatRequest → Text → Text → UserPrompt
prompt_of req prompt_uuid session_uuid = record {
  prompt_id = lit "prompt-" ++ prompt_uuid;
  text = req.text;
  session_id = if text_eq req.session_id [] then lit "sess-" ++ session_uuid else req.session_id;
  context_files = [];
}

module _ (c : Crypto) (s : Sqlite) (fs : FileSystem) where
  pub data TurnError : Type 0 where
    tunnel_error gateway_error : Text → TurnError
    jail_error : JailError fs → TurnError
    pty_error : PtyError → TurnError
    ledger_error : LedgerError → TurnError

  -- The variables of the turn, and the frames that it sent.
  pub record TurnState : Type 0 where
    pub db : s.Db
    pub files : Files
    pub screens : Screens
    pub agent_message : Text
    pub tool_calls : List Text
    pub tool_executions : List ExecutedTool
    pub sent : List Reply

  -- `ledger.append("local-ui-agent", action_type, payload)`: the ledger is the turn's own, so its
  -- lock is sound.
  abbrev pub record_action :
      Outside → Text → Text → TurnState → Result LedgerError AuditEntry × s.Db
  record_action w action_type payload t =
      append c s false t.db w.timestamp ui_agent action_type payload

  abbrev pub options_of : ExecCommand → fs.PathBuf → SpawnOptions
  options_of cmd dir =
      let sized = cmd.pty && ltb 0 cmd.pty_rows && ltb 0 cmd.pty_cols in
      let defaults = default_options cmd.command in
      record defaults {
        args = cmd.args;
        cwd = some (fs.to_text dir);
        pty = cmd.pty;
        rows = if sized then cmd.pty_rows % 2 ^ 16 else defaults.rows;
        cols = if sized then cmd.pty_cols % 2 ^ 16 else defaults.cols;
      }

  -- What is reported of a command that has ended.
  abbrev pub report_output : Outside → ExecCommand → Text → TurnState → TurnState
  report_output w cmd output t = record t {
    tool_executions =
        t.tool_executions
        ++ record {
          tool_type = lit "exec_command";
          command = cmd.command;
          args = cmd.args;
          output = w.utf8 (sanitize_terminal_output (w.lossy output));
          file_path = [];
          lines_added = 0;
          lines_removed = 0;
        }
          ∷ [];
    sent =
        t.sent
        ++ terminal_output (record {
          session_id = ui_screen;
          bytes = output;
          is_stderr = false;
          is_eof = true;
          exit_code = pos 0;
        })
          ∷ [];
  }

  -- A command that has ended goes into the ledger, into the answer and to the gateway.
  unfoldable pub report_command :
      Outside → ExecCommand → Text → TurnState → Result TurnError Bool × TurnState
  unfolding append sanitize_terminal_output
  report_command w cmd output t =
      let (r, db) = record_action w (lit "exec_command") output t in
      elim r [
        | err e ↦ (err (ledger_error e), record t { db = db })
        | ok entry ↦ (ok false, report_output w cmd output (record t { db = db }))
      ]

  unfoldable pub run_exec :
      Outside → WorkspaceJail fs → ExecCommand → TurnState → Result TurnError Bool × TurnState
  unfolding validate_cwd spawn_screen serve receive full_output report_command
  run_exec w jail cmd t =
      let cwd_path =
        if text_eq cmd.working_dir [] then none else some (fs.of_text cmd.working_dir) in
      elim (validate_cwd jail cwd_path) [
        | err e ↦ (err (jail_error e), t)
        | ok dir ↦
            let (r, started) =
              spawn_screen ui_screen (options_of cmd dir) w.now w.spawned_as t.screens in
            let screens = serve w.events started in
            elim r [
              | err e ↦
                  (err (pty_error e), record t { screens = started; files = w.effects t.files })
              | ok u ↦
                  report_command w cmd (full_output (receive w.received screens))
                    (record t { screens = screens; files = w.effects t.files })
            ]
      ]

  -- The patch of a frame, as the turn applies it: the hash that it expects is not passed on.
  abbrev pub patch_options : ApplyPatch → PatchOptions
  patch_options patch = record {
    patch_id = none;
    expected_sha256 = none;
    dry_run = patch.dry_run;
    create_parents = false;
  }

  -- What is reported of a patch, whether it was applied or not.
  abbrev pub report_patch : ApplyPatch → Bool → Text → ℕ → ℕ → TurnState → TurnState
  report_patch patch success err_msg lines_added lines_removed t = record t {
    tool_executions =
        t.tool_executions
        ++ record {
          tool_type = lit "apply_patch";
          command = [];
          args = [];
          output = err_msg;
          file_path = patch.file_path;
          lines_added = lines_added;
          lines_removed = lines_removed;
        }
          ∷ [];
    sent =
        t.sent
        ++ patch_result (record {
          patch_id = patch.patch_id;
          file_path = patch.file_path;
          success = success;
          error_message = err_msg;
          new_sha256 = [];
          lines_added = lines_added;
          lines_removed = lines_removed;
        })
          ∷ [];
  }

  -- The file is changed before the patch goes into the ledger.
  unfoldable pub run_patch :
      Outside → WorkspaceJail fs → ApplyPatch → TurnState → Result TurnError Bool × TurnState
  unfolding resolve_path apply_patch append
  run_patch w jail patch t = elim (resolve_path jail (fs.of_text patch.file_path)) [
    | err e ↦ (err (jail_error e), t)
    | ok target_path ↦
        let (r, files) =
          apply_patch c patch.diff w.surroundings (fs.to_text target_path) (patch_options patch)
            t.files in
        let t1 = record t { files = files } in
        elim r [
          | err e ↦ (ok false, report_patch patch false (w.diff_text e) 0 0 t1)
          | ok res ↦
              let (logged, db) = record_action w (lit "apply_patch") patch.diff t1 in
              elim logged [
                | err e ↦ (err (ledger_error e), record t1 { db = db })
                | ok entry ↦ (
                  ok false,
                  report_patch patch true [] res.lines_added res.lines_removed
                      (record t1 { db = db }),
                )
              ]
        ]
  ]

  -- One frame; `true` leaves the loop.
  unfoldable pub on_frame :
      Outside
      → WorkspaceJail fs
      → Option ServerPayload
      → TurnState
      → Result TurnError Bool × TurnState
  unfolding run_exec run_patch
  on_frame w jail none t = (ok false, t)
  on_frame w jail (some (agent_message msg)) t =
      (ok msg.is_final, record t { agent_message = msg.content; tool_calls = msg.tool_calls })
  on_frame w jail (some (exec_command cmd)) t = run_exec w jail cmd t
  on_frame w jail (some (ServerPayload.apply_patch patch)) t = run_patch w jail patch t
  on_frame w jail (some (error_frame e)) t =
      (err (gateway_error (lit "Cloud Gateway error: " ++ e)), t)
  on_frame w jail (some (heartbeat hb)) t = (ok false, t)
  on_frame w jail (some (other_payload bytes)) t = (ok false, t)

  -- The loop, to the end of the arrivals within 45 seconds.
  unfoldable pub run_turn :
      WorkspaceJail fs → List Arrival → TurnState → Result TurnError (Unit {0}) × TurnState
  unfolding on_frame
  run_turn jail [] t = (ok tt, t)
  run_turn jail (closed ∷ arrivals) t = (ok tt, t)
  run_turn jail (silent ∷ arrivals) t = (ok tt, t)
  run_turn jail (arrives payload w ∷ arrivals) t =
      let after = on_frame w jail payload t in
      let rest = run_turn jail arrivals after.1 in
      elim after.0 [
        | err e ↦ (err e, after.1)
        | ok final ↦ if final then (ok tt, after.1) else rest
      ]

  -- What the turn meets before its loop: the connection, the prompt that is sent and the ledger
  -- that is opened.
  pub record Start : Type 0 where
    pub connected : Result Text (Unit {0})
    pub prompt_sent : Result Text (Unit {0})
    pub opened : Result LedgerError s.Db

  -- `?` on the calls of the tunnel, the jail and the ledger.
  abbrev from_tunnel : Result Text (Unit {0}) → Result TurnError (Unit {0})
  from_tunnel (ok u) = ok u
  from_tunnel (err e) = err (tunnel_error e)

  abbrev from_jail : Result (JailError fs) (WorkspaceJail fs) → Result TurnError (WorkspaceJail fs)
  from_jail (ok jail) = ok jail
  from_jail (err e) = err (jail_error e)

  abbrev from_ledger : {A : Type 0} → Result LedgerError A → Result TurnError A
  from_ledger (ok a) = ok a
  from_ledger (err e) = err (ledger_error e)

  unfoldable pub begin_turn :
      Start → fs.PathBuf → Files → Result TurnError (WorkspaceJail fs × TurnState)
  unfolding with_allowed_paths
  begin_turn b workspace files = do
    from_tunnel b.connected
    from_tunnel b.prompt_sent
    jail ← from_jail (with_allowed_paths fs workspace [])
    db ← from_ledger b.opened
    ok (
      jail,
      record {
        db = db;
        files = files;
        screens = [];
        agent_message = [];
        tool_calls = [];
        tool_executions = [];
        sent = [];
      },
    )

  unfoldable pub end_turn : ChatRequest → TurnState → Result TurnError ChatResponse
  unfolding compute_merkle_root
  end_turn req t = do
    root ← from_ledger (compute_merkle_root c s false t.db)
    ok (record {
      session_id = req.session_id;
      agent_message = t.agent_message;
      tool_calls = t.tool_calls;
      tool_executions = t.tool_executions;
      merkle_root = root_text root;
    })

  -- The answer, and what the turn left if it began.
  unfoldable pub execute_turn_via_tunnel :
      ChatRequest
      → Start
      → fs.PathBuf
      → List Arrival
      → Files
      → Result TurnError ChatResponse × Option TurnState
  unfolding begin_turn run_turn end_turn
  execute_turn_via_tunnel req b workspace arrivals files = elim (begin_turn b workspace files) [
    | err e ↦ (err e, none)
    | ok (jail, t) ↦ let (r, t') = run_turn jail arrivals t in (r >>= λ u. end_turn req t', some t')
  ]
