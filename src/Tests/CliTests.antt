-- ===== src/Tests/CliTests.antt =====
-- A turn of the local web server that applies a patch and runs a command, its response, and the
-- sanitizer.
use syntropy.Prelude.{
  ◌≡◌, ◌⊎◌, ◌↔◌, ◌≤◌, refl, true, false, Option, none, some, List, [], ◌∷◌, ◌++◌, map, Text, lit,
  text_eq, ends_with, lookup, insert, remove, find?, starts_with, strip_prefix?, show, length, join,
  Result, ok, err,
}
use syntropy.Security.Ledger.{
  genesis_hash, id_eq, next, verify_rows, append_with_hash, append_tx, new_entry, next_link,
  compute_entry_hash, preimage,
}
use syntropy.Security.Ledger.Chain.{IsChained}
use syntropy.Security.Ledger.Database.{pos, AuditEntry}
use syntropy.Security.Ledger.Readers.{get_entries, count}
use syntropy.Exec.Jail.{
  WorkspaceJail, is_contained, canonical_all, walk_up, push_all, with_allowed_paths,
}
use syntropy.Exec.Screens.{screen_already_exists}
use syntropy.Exec.Screens.Table.{started}
use syntropy.Exec.Screens.Threads.{takes, outputs, sends, child_exits, master_dropped, output_ends}
use syntropy.Exec.Diff.Commit.{Files}
use syntropy.Tunnel.Frames.{ExecCommand, ApplyPatch, ServerPayload, exec_command, agent_message}
use syntropy.Cli.Sanitize.{sanitize_terminal_output}
use syntropy.Cli.Sanitize.Clean.{sanitize_terminal_output-IsClean, IsClean}
use syntropy.Cli.Turn.{
  pty_error, Outside, Arrival, arrives, ChatRequest, ChatResponse, Start, TurnError, TurnState,
  execute_turn_via_tunnel,
}
use syntropy.Cli.Turn.Contained.{IsAmong, IsResolved, execute_turn_via_tunnel-contained}
use syntropy.Cli.Turn.Recorded.{execute_turn_via_tunnel-recorded, action_of, actions_of}
use syntropy.Cli.Turn.OneCommand.{execute_turn_via_tunnel_one_command, commands}
use syntropy.Cli.Http.{
  send_http_response, body_of, status_text, audit_view, route_line, chat, not_found,
}
use syntropy.Cli.Http.Body.{body_of-send_http_response, is_line}
use syntropy.Tests.Samples.{toy_crypto, list_sqlite}
use syntropy.Tests.FileSamples.{tree}

program : Unit {0}
unfolding text_eq lookup insert remove find? starts_with strip_prefix? execute_turn_via_tunnel
    sanitize_terminal_output is_line audit_view get_entries count commands route_line verify_rows
    canonical_all walk_up is_contained ends_with push_all append_with_hash append_tx join id_eq
    new_entry next_link compute_entry_hash preimage next
program = tt

abbrev State : Type 0
State = TurnState toy_crypto list_sqlite tree

abbrev outside : Outside
outside = record {
  timestamp = lit "t";
  now = 7;
  spawned_as = started;
  events =
      takes
      ∷ outputs false (lit "a\r\n")
      ∷ sends false
      ∷ child_exits 0
      ∷ master_dropped
      ∷ output_ends
      ∷ [];
  received = 9;
  effects = λ f. f;
  surroundings = record {
    read_error = none;
    failure = none;
    shadow_path = lit "tmp";
    uuid = lit "u";
    trim = λ t. t;
    lossy = λ t. t;
  };
  diff_text = λ e. lit "diff";
  lossy = λ t. t;
  utf8 = λ t. t;
}

abbrev patch : ApplyPatch
patch = record {
  patch_id = lit "p";
  file_path = lit "n";
  diff = lit "@@ -1 +1 @@\n-old\n+new\n";
  expected_sha256 = [];
  dry_run = false;
}

abbrev command : ExecCommand
command = record {
  command_id = lit "c";
  command = lit "ls";
  args = [];
  working_dir = [];
  env = [];
  timeout_seconds = 30;
  pty = true;
  pty_rows = 30;
  pty_cols = 0;
}

abbrev arrivals : List Arrival
arrivals =
    arrives (some (ServerPayload.apply_patch patch)) outside
    ∷ arrives (some (exec_command command)) outside
    ∷ arrives
        (some (
          agent_message
            (record { turn_id = lit "t"; content = lit "done"; tool_calls = []; is_final = true })))
        outside
    ∷ []

abbrev request : ChatRequest
request = record { text = lit "go"; session_id = lit "s" }

abbrev begin : Start toy_crypto list_sqlite tree
begin = record { connected = ok tt; prompt_sent = ok tt; opened = ok [] }

abbrev files : Files
files = (lit "nw", lit "old\n") ∷ []

abbrev turn : Result (TurnError toy_crypto list_sqlite tree) ChatResponse × Option State
turn = execute_turn_via_tunnel toy_crypto list_sqlite tree request begin (lit "w") arrivals files

abbrev answer_of : Result (TurnError toy_crypto list_sqlite tree) ChatResponse → ChatResponse
answer_of (ok resp) = resp
answer_of (err e) = record {
  session_id = [];
  agent_message = [];
  tool_calls = [];
  tool_executions = [];
  merkle_root = [];
}

abbrev state_of : Option State → State
state_of (some t) = t
state_of none = record {
  db = [];
  files = [];
  screens = [];
  agent_message = [];
  tool_calls = [];
  tool_executions = [];
  sent = [];
}

abbrev answer : ChatResponse
answer = answer_of turn.0

abbrev state : State
state = state_of turn.1

turn_runs : turn ≡ (ok answer, some state)
unfolding program
turn_runs = refl

-- The patch and the command are both done, and the output comes through.
turn_done :
    (lookup (lit "nw") state.files ≡ some (lit "new\n"))
    × (map (λ x. x.output) answer.tool_executions ≡ [] ∷ lit "a\n" ∷ [])
    × (length state.db ≡ 2)
unfolding program
turn_done = (refl, refl, refl)

-- A second command finds the name of its screen taken, and the turn fails.
second_command :
    (execute_turn_via_tunnel toy_crypto list_sqlite tree request begin
      (lit "w")
      (arrives (some (exec_command command)) outside
        ∷ arrives (some (exec_command command)) outside
        ∷ [])
      files).0
    ≡ err (pty_error (screen_already_exists (lit "ui-screen")))
unfolding program
second_command = refl

apart : text_eq (lit "tmp") (lit "nw") ≡ false
unfolding program
apart = refl

execute_turn_via_tunnel-contained_example :
    (lookup (lit "nw") state.files ≡ lookup (lit "nw") files)
    ⊎ ((jail : WorkspaceJail tree) × (with_allowed_paths tree (lit "w") [] ≡ ok jail)
        × ((path : Text) × IsAmong path arrivals × IsResolved jail path (lit "nw")))
execute_turn_via_tunnel-contained_example =
    execute_turn_via_tunnel-contained request begin (lit "w") arrivals files (ok answer) state
      (lit "nw") (apart, (λ f. refl), (apart, (λ f. refl), (apart, (λ f. refl), tt))) turn_runs

execute_turn_via_tunnel-recorded_example :
    (news : List AuditEntry) × (state.db ≡ [] ++ news)
    × (map action_of news ≡ actions_of toy_crypto state.sent)
    × IsChained toy_crypto (pos 1) genesis_hash state.db
execute_turn_via_tunnel-recorded_example =
    execute_turn_via_tunnel-recorded request begin (lit "w") arrivals files answer [] state refl tt
      turn_runs

execute_turn_via_tunnel_one_command_example : commands answer.tool_executions ≤ 1
execute_turn_via_tunnel_one_command_example =
    execute_turn_via_tunnel_one_command request begin (lit "w") arrivals files answer (some state)
      turn_runs

json_line : is_line (lit "application/json") ≡ true
unfolding program
json_line = refl

body_of-send_http_response_example :
    (body_of (send_http_response 200 (lit "application/json") (lit "{}")) ≡ lit "{}")
    × (find? (lit "\r\n\r\n") (send_http_response 200 (lit "application/json") (lit "{}"))
        ≡ some (
          join (lit "\r\n") (
              (lit "HTTP/1.1 " ++ (show 200 ++ (lit " " ++ status_text 200)))
              ∷ (lit "Content-Type: " ++ lit "application/json")
              ∷ (lit "Content-Length: " ++ show 2)
              ∷ lit "Access-Control-Allow-Origin: *"
              ∷ lit "Access-Control-Allow-Headers: Content-Type"
              ∷ lit "Connection: close"
              ∷ []),
          lit "{}",
        ))
body_of-send_http_response_example =
    body_of-send_http_response 200 (lit "application/json") (lit "{}") json_line

shown_verified : (audit_view list_sqlite toy_crypto false state.db).verified ≡ true
unfolding program
shown_verified = refl

count_runs : count list_sqlite false state.db ≡ ok 2
unfolding program
count_runs = refl

entries_run : get_entries list_sqlite false state.db 0 25 ≡ ok state.db
unfolding program
entries_run = refl

state_small : length state.db ≡ 2
unfolding program
state_small = refl

sanitize_terminal_output-IsClean_example :
    IsClean (sanitize_terminal_output (27 ∷ lit "]0;x"))
    × ((sanitize_terminal_output (27 ∷ lit "]0;x") ≡ 27 ∷ lit "]0;x") ↔ IsClean (27 ∷ lit "]0;x"))
sanitize_terminal_output-IsClean_example = sanitize_terminal_output-IsClean (27 ∷ lit "]0;x")

routes :
    (route_line (lit "POST /api/chat HTTP/1.1") ≡ chat) × (route_line (lit "PUT /") ≡ not_found)
unfolding program
routes = (refl, refl)
