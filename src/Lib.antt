-- ===== src/Lib.antt =====
-- Verification of Syntropy: the local side of an agent platform, in which remote agents act on a
-- machine through tools, files and screens.
--
-- The parts, and where they are modelled:
--
-- * Security.Ledger models crates/syntropy-security/src/ledger.rs, the append-only audit trail.
--   `append` and `append_with_hash` are runs of `Result` over a database, `verify_integrity` is the
--   recursion over the rows, and `merkle_root` the loop of `compute_merkle_root` with the number of
--   hashes as its fuel, which halves each round. Readers are the queries of a page, the newest and
--   the number of entries. Ledger.Database states what SQLite is taken to do.
-- * Security.KeyStore models crates/syntropy-security/src/keystore.rs. The trait is the record
--   `KeyStore`, the laws that its clients use are `IsLawful`, and InMemory and File are its two
--   implementations, with Dpapi for Windows. Cipher is the file's format: `apply_keystream` goes
--   over chunks of 32 bytes with the length of the text as fuel, since each chunk takes a byte.
-- * Security.Broker models crates/syntropy-security/src/broker.rs over any keystore: handles and
--   their bindings, the injection of secrets, signatures (Hmac), redaction and the OAuth session.
-- * Mcp models crates/syntropy-mcp: the messages (Protocol, protocol.rs), the allowlist, the circuit
--   breaker and the proxy (proxy.rs), and the supervisor of a tool server (supervisor.rs), whose
--   tasks are operations on one state, `send_request`, `on_line`, `on_eof`, `stop`, `on_spawn` and
--   `on_exit`. An interleaving of the tasks is a list of events. Supervisor.Loop is the whole of
--   `run_loop`, over the list of the children that it starts, of which only so many are used.
-- * Exec models crates/syntropy-exec. Jail is the jail of paths (jail.rs; the walk to an ancestor has
--   the depth of the path as fuel). Screens is the multiplexer of pty_mux.rs: Table holds the calls,
--   Threads the threads of one screen, whose runs are lists of events with `terminate` in two parts,
--   since it may wait for a mutex, and each piece of output in two, its write to the buffer and its
--   send. RingBuffer is the scrollback. Diff is diff.rs: Parser reads a unified diff, Diff applies its hunks, Replacements makes line replacements, and Commit holds
--   search/replace blocks and the commit by a shadow file and a rename. A block parser's round
--   passes a marker, so the length of the text is fuel enough. Worktree is worktree.rs, on a host
--   that runs git.
-- * Tunnel models the tunnel between agents and gateway: Frames the messages of tunnel.proto,
--   Sessions and Gateway services/gateway/src/session.rs and service.rs, where the tasks of all
--   tunnels are one list of events, and Client the worker of crates/syntropy-tunnel/src/client.rs,
--   with the frame that a failed send keeps back in Client.Pending and the client's own side in
--   Client.Handle, where the moments of a wait are a list.
-- * Swarm models services/swarm-orchestrator: the versions of the deliverables (Blackboard,
--   blackboard.rs), the phases of a sprint (Workflow, workflow.rs), whose calls are the commands of
--   Workflow.Gate, the personas (Blueprint, blueprint.rs), the client of the model (Gemini, gemini.rs) and the turns (Turn, turn.rs).
-- * Daemon models crates/syntropy-daemon/src/orchestrator.rs, which puts the ledger, the jail, the
--   screens, the patches and the allowlist together: one function per handler of a frame, on the
--   state that they act on. Config is config.rs, Setup the orchestrator that it leads to, Forward
--   the task that sends the output of a screen on, and Service the frames in the order of their tasks.
-- * Cli models crates/syntropy-cli/src/ui.rs, the local page: Sanitize what it shows of a model's
--   output, Turn the chat with its runs of the daemon's handlers, and Http the requests it reads,
--   where the reads of a connection are a list of pieces.
--
-- Prelude holds what they share: Rust's texts as lists of bytes (Bytes, Affixes, TextLines), maps as
-- association lists (Dicts), `Result` with `?` as bind (Results), words and decimals (Words, Decimal:
-- each round of a loop passes a byte or a digit), lists and tests on native numbers.
-- Tests runs the definitions on small inputs, with Samples, FileSamples and SecuritySamples
-- for the parameters.
--
-- The parts meet in interfaces: the broker takes any `KeyStore`, the ledger any `Sqlite`, all that
-- hash any `Crypto` (SHA-256 and hex), the jail any `FileSystem`, the worktrees any `Host`, the proxy
-- and the supervisor any `JsonValue`, the turns any `ModelApi` (JSON and the network). Locks are
-- flags that say whether they are poisoned; a failure outside, a clock or a random id is an argument
-- of the call. Numbers of the source are natural numbers with their width written out where they
-- grow (`u32` counters, `usize` in a hunk's header). The ids of the ledger are taken to stay below
-- the largest `i64`, since a table would have to hold as many rows. What a command of the web page
-- does to the files while it runs is a function that comes with it.
--
-- Not modelled: the command line (main.rs) and the loops that accept connections, which are input
-- and output around the parts above; the stand-in servers of the tests; the generated protocol; the
-- set-up of TLS; the listing of a keystore and of the board.
pub mod Prelude
pub mod Exec
pub mod Mcp
pub mod Security
pub mod Swarm
pub mod Tunnel
pub mod Tests
pub mod Cli
pub mod Daemon
