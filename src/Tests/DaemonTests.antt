-- ===== src/Tests/DaemonTests.antt =====
-- An orchestrator in the jail of the samples, with an empty ledger: a patch, a command, a tool.
use syntropy.Prelude.{◌++◌, ok, err, ends_with}
use syntropy.Exec.Jail.{canonical_all, resolve_path, walk_up, push_all, is_path_within}
use syntropy.Mcp.Allowlist.{is_allowed}
use syntropy.Daemon.Config.{default_config, load_from_dir, resolve_audit_path}
use syntropy.Exec.Screens.{OutputChunk, SpawnOptions, spawned}
use syntropy.Daemon.Service.{serve, IsGrown, serve-IsChained}
use syntropy.Daemon.Forward.{lagged, forwarded, forward, on_time, forward-in_order}
use syntropy.Daemon.Setup.{Host, new_orchestrator, new_orchestrator_confined}
use syntropy.Prelude.{
  ◌≡◌, ◌⊎◌, refl, true, false, none, [], ◌∷◌, Text, lit, text_eq, lookup, insert, remove, find?,
  starts_with, strip_prefix?, map, some, Option, List,
}
use syntropy.Exec.Jail.{validate_cwd, is_contained, normalize_path_prefix}
use syntropy.Exec.Screens.{done}
use syntropy.Exec.Screens.Table.{started}
use syntropy.Exec.Diff.Commit.{Surroundings}
use syntropy.Tunnel.Frames.{ExecCommand, ApplyPatch, exec_request, patch_request, Request}
use syntropy.Daemon.{
  Outside, Orchestrator, Machine, handle_apply_patch, handle_exec_command, handle_approval_request,
  screen_of, cwd_of, safe_env,
}
use syntropy.Daemon.Audited.{IsAudited, handle_apply_patch-IsAudited, handle_exec_command-IsAudited}
use syntropy.Tests.Samples.{toy_crypto, list_sqlite}
use syntropy.Tests.FileSamples.{tree, jail}

program : Unit {0}
unfolding text_eq lookup insert remove find? starts_with strip_prefix? safe_env
    handle_approval_request
program = tt

abbrev orchestrator : Orchestrator toy_crypto list_sqlite tree
orchestrator = record { agent_id = lit "a"; jail = jail; allowlist = lit "read_*" ∷ [] }

abbrev surroundings : Surroundings
surroundings = record {
  read_error = none;
  failure = none;
  shadow_path = lit "tmp";
  uuid = lit "u";
  trim = λ t. t;
  lossy = λ t. t;
}

abbrev outside : Outside tree
outside = record {
  timestamp = lit "t";
  now = 7;
  spawned_as = started;
  attempt = done;
  surroundings = surroundings;
  exec_json = λ cmd. cmd.command;
  tool_json = λ req. req.tool_name;
  to_uppercase = λ t. t;
  ledger_text = λ e. lit "ledger";
  jail_text = λ e. lit "jail";
  diff_text = λ e. lit "diff";
  pty_text = λ e. lit "pty";
}

abbrev machine : Machine toy_crypto list_sqlite tree
machine = record {
  poisoned = false;
  db = [];
  files = (lit "nw", lit "old\n") ∷ [];
  screens = [];
  replies = [];
}

abbrev patch : ApplyPatch
patch = record {
  patch_id = lit "p";
  file_path = lit "n";
  diff = lit "@@ -1 +1 @@\n-old\n+new\n";
  expected_sha256 = [];
  dry_run = false;
}

abbrev command : ExecCommand
command = record {
  command_id = lit "c";
  command = lit "ls";
  args = [];
  working_dir = [];
  env = (lit "API_TOKEN", lit "x") ∷ (lit "HOME", lit "h") ∷ [];
  timeout_seconds = 30;
  pty = true;
  pty_rows = 30;
  pty_cols = 0;
}

-- A variable that is named after a token does not reach the child.
sanitized :
    safe_env toy_crypto list_sqlite tree (λ t. t) command.env [] ≡ (lit "HOME", lit "h") ∷ []
unfolding program
sanitized = refl

apart : text_eq (lit "tmp") (lit "nw") ≡ false
unfolding program
apart = refl

handle_apply_patch-IsAudited_example :
    let m' = handle_apply_patch toy_crypto list_sqlite tree orchestrator outside patch machine in
    (lookup (lit "nw") m'.files ≡ lookup (lit "nw") machine.files)
    ⊎ (IsAudited toy_crypto list_sqlite tree orchestrator outside
          (lit "apply_patch")
          patch.diff
          machine
          m'
        × ((p : Text) × (resolve_path jail patch.file_path ≡ ok p)
            × (is_contained jail p ≡ true)
            × (lit "nw" ≡ p)))
handle_apply_patch-IsAudited_example =
    handle_apply_patch-IsAudited toy_crypto list_sqlite tree orchestrator outside patch machine
      (lit "nw") apart

handle_exec_command-IsAudited_example :
    let m' = handle_exec_command toy_crypto list_sqlite tree orchestrator outside command machine in
    let id = screen_of toy_crypto list_sqlite tree orchestrator command in
    (m'.screens ≡ machine.screens)
    ⊎ (IsAudited toy_crypto list_sqlite tree orchestrator outside
          (lit "exec_command")
          (lit "ls")
          machine
          m'
        × ((dir : Text) × (validate_cwd jail (cwd_of toy_crypto list_sqlite tree command) ≡ ok dir)
            × ((q : Text) × (dir ≡ normalize_path_prefix tree q) × (is_contained jail q ≡ true))
            × ((opts : SpawnOptions) × (opts.cwd ≡ some dir)
                × (opts.command ≡ command.command)
                × (opts.args ≡ command.args)
                × (lookup id machine.screens ≡ none)
                × (m'.screens ≡ insert id (spawned id opts 7) machine.screens))))
handle_exec_command-IsAudited_example =
    handle_exec_command-IsAudited toy_crypto list_sqlite tree orchestrator outside command machine

abbrev host : Host toy_crypto list_sqlite tree
host = record {
  create_dir_all = λ p. ok tt;
  open_ledger = λ p. ok [];
  files = (lit "nw", lit "old\n") ∷ [];
}

abbrev made : Orchestrator toy_crypto list_sqlite tree
made = record { agent_id = lit "a"; jail = jail; allowlist = lit "*" ∷ [] }

set_up :
    new_orchestrator toy_crypto list_sqlite tree (lit "a") (lit "w") default_config host
    ≡ ok (made, machine)
unfolding program new_orchestrator canonical_all
set_up = refl

resolves : resolve_path jail (lit "n") ≡ ok (lit "nw")
unfolding program resolve_path is_contained walk_up push_all ends_with
resolves = refl

new_orchestrator_confined_example :
    ((canonical : Text) × (tree.canonicalize (lit "w") ≡ ok canonical)
      × (is_path_within tree canonical (lit "nw") ≡ true))
    × ((tool : Text) → is_allowed (lit "*" ∷ []) tool ≡ is_allowed (lit "*" ∷ []) tool)
new_orchestrator_confined_example =
    new_orchestrator_confined (lit "a") (lit "w") (lit "n") (lit "nw") default_config host made
      machine set_up resolves

-- A directory without a file has the defaults, whose ledger stands below the workspace.
defaults :
    (load_from_dir
        (record { file_exists = false; content = err (lit "none"); parse = λ t. err (lit "none") })
      ≡ ok default_config)
    × (resolve_audit_path tree default_config (lit "w") ≡ lit ".syntropy/audit.db" ++ lit "w")
unfolding load_from_dir resolve_audit_path
defaults = (refl, refl)

-- Two chunks of a screen, and its last.
abbrev chunk_of : Text → OutputChunk
chunk_of bytes = record {
  session_id = lit "s";
  bytes = bytes;
  is_stderr = false;
  is_eof = false;
  exit_code = none;
}

abbrev last_chunk : OutputChunk
last_chunk = record (chunk_of []) { is_eof = true; exit_code = some 1 }

forward-in_order_example :
    (forward
        (lit "s")
        (map on_time (chunk_of (lit "x") ∷ chunk_of (lit "y") ∷ []) ++ on_time last_chunk ∷ [])
      ≡ map (forwarded (lit "s")) (chunk_of (lit "x") ∷ chunk_of (lit "y") ∷ [])
        ++ forwarded (lit "s") last_chunk ∷ [])
    × (forward (lit "s") (
          map on_time (chunk_of (lit "x") ∷ chunk_of (lit "y") ∷ []) ++ (err (lagged 3), true) ∷ [])
        ≡ map (forwarded (lit "s")) (chunk_of (lit "x") ∷ chunk_of (lit "y") ∷ []))
forward-in_order_example =
    forward-in_order (lit "s") (chunk_of (lit "x") ∷ chunk_of (lit "y") ∷ []) last_chunk (lagged 3)
      true [] (refl, (refl, tt)) refl

-- A command and a patch, in the order of their tasks.
abbrev frames : List (Outside tree × Option Request)
frames = (outside, some (exec_request command)) ∷ (outside, some (patch_request patch)) ∷ []

serve-IsChained_example :
    IsGrown toy_crypto list_sqlite tree
      (lit "a")
      machine.db
      (serve toy_crypto list_sqlite tree orchestrator frames machine).db
serve-IsChained_example = serve-IsChained toy_crypto list_sqlite tree orchestrator frames machine tt
