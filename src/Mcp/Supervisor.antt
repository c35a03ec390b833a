-- ===== src/Mcp/Supervisor.antt =====
-- supervisor.rs: `McpSupervisor`, which runs the tool server as a child process, restarts it, and
-- hands each response to the caller that waits for its id.
pub mod Callers
pub mod Restarts
pub mod Loop
use syntropy.Prelude.{
  ◌^◌, ℕ, zero, suc, ◌≡◌, ◌≢◌, ◌↔◌, ◌⊎◌, inl, inr, ◌≤◌, ◌<◌, ◌+◌, ◌-◌, ◌*◌, ◌%◌, ◌/◌, min, max,
  refl, sym, ap, ◌∙◌, Bool, true, false, not, ◌&&◌, ◌||◌, Option, none, some, List, [], ◌∷◌, ◌++◌,
  map, Text, lit, text_eq, text_eq_iff, text_eq_refl, Dict, lookup, insert, remove, Result, ok, err,
  ◌>>=◌, ◌>>◌, guard, with_ok, Result-cases, Bool-cases, ok-injective, if◌then◌else◌, length, take,
  drop, get_elem?, ltb, leb, ◌==◌, ==_iff, lookup-insert, lookup-remove, lookup-insert_self,
  dict_laws, arith,
}
use syntropy.Mcp.Protocol.{
  JsonValue, JsonRpcRequest, JsonRpcResponse, McpError, process_exited, serialization, other,
  channel_closed, supervisor_terminated,
}

pub record McpServerConfig : Type 0 where
  pub name : Text
  pub command : Text
  pub args : List Text
  pub env : Dict Text
  pub cwd : Option Text
  pub auto_restart : Bool
  pub max_restart_attempts : ℕ
  pub restart_backoff_ms : ℕ

-- `McpServerConfig::new`, with the defaults of a configuration that is read.
unfoldable pub new_config : Text → Text → McpServerConfig
new_config name command = record {
  name = name;
  command = command;
  args = [];
  env = [];
  cwd = none;
  auto_restart = true;
  max_restart_attempts = 3;
  restart_backoff_ms = 500;
}

module _ (j : JsonValue) where
  -- What a caller of `send_request` gets in the end.
  abbrev pub Settled : Type 0
  Settled = Result McpError (JsonRpcResponse j)

  -- Callers are numbers. `sent` is what went into the channel of the child's standard input, and
  -- `settled` what the waiting callers were told so far, the latest last.
  pub record Supervisor : Type 0 where
    pub config : McpServerConfig
    pub stdin_open : Bool
    pub sent : List Text
    pub pending : Dict ℕ
    pub is_alive : Bool
    pub restart_count : ℕ
    pub shutdown_requested : Bool
    pub settled : List (ℕ × Settled)

  -- What one call of `send_request` meets outside: a new UUID, the serializer, the channel.
  pub record Sending : Type 0 where
    pub uuid : Text
    pub to_json : JsonRpcRequest j → Option Text
    pub channel_takes : Bool

module _ {j : JsonValue} where
  -- Dropping the sender of a caller ends its wait.
  abbrev pub dropped : Settled j
  dropped = err (process_exited (lit "Response channel closed before receiving message"))

  -- `pending.insert(key, resp_tx)`: the sender that stood there is dropped.
  unfoldable pub wait_for : Text → ℕ → Supervisor j → Supervisor j
  wait_for key caller s = elim (lookup key s.pending) [
    | none ↦ record s { pending = insert key caller s.pending }
    | some before ↦ record s {
      pending = insert key caller s.pending;
      settled = s.settled ++ (before, dropped) ∷ [];
    }
  ]

  -- `pending.remove(&id_key)` and the return of an error to the caller itself.
  abbrev pub give_up : Text → McpError → Supervisor j → Result McpError (Unit {0}) × Supervisor j
  give_up key e s = (err e, record s { pending = remove key s.pending })

  -- The request with its id, made from a UUID where there is none.
  abbrev pub id_of : Sending j → JsonRpcRequest j → j.Value
  id_of o request = elim request.id [ none ↦ j.of_text o.uuid | some id ↦ id ]

  -- The request as text, if it could be written, goes into the channel. The caller is in `pending`
  -- already.
  unfoldable pub enqueue :
      Sending j → Text → Supervisor j → Option Text → Result McpError (Unit {0}) × Supervisor j
  enqueue o key s none = give_up key (serialization (lit "serde_json")) s
  enqueue o key s (some payload) =
      if s.stdin_open
      then if o.channel_takes
        then (ok tt, record s { sent = s.sent ++ (payload ++ lit "\n") ∷ [] })
        else give_up key channel_closed s
      else give_up key (process_exited (lit "Stdin channel unavailable")) s

  -- Up to the wait: `ok` says that the caller now waits.
  unfoldable pub send_request :
      Sending j → ℕ → JsonRpcRequest j → Supervisor j → Result McpError (Unit {0}) × Supervisor j
  unfolding enqueue
  send_request o caller request s =
      let id = id_of o request in
      let key = j.to_string id in
      if s.shutdown_requested
      then (err supervisor_terminated, s)
      else if not s.is_alive
      then (err (process_exited (lit "Child MCP process is not running")), s)
      else enqueue o key (wait_for key caller s) (o.to_json (record request { id = some id }))

  -- A line of the child's standard output, parsed: the response, if it is one.
  unfoldable pub on_line : Option (JsonRpcResponse j) → Supervisor j → Supervisor j
  on_line none s = s
  on_line (some response) s = elim response.id [
    | none ↦ s
    | some id ↦ elim (lookup (j.to_string id) s.pending) [
      | none ↦ s
      | some caller ↦ record s {
        pending = remove (j.to_string id) s.pending;
        settled = s.settled ++ (caller, ok response) ∷ [];
      }
    ]
  ]

  -- `for (_, sender) in pending.drain() { sender.send(Err(e)) }`
  unfoldable pub told : McpError → Dict ℕ → List (ℕ × Settled j)
  told e [] = []
  told e ((key, caller) ∷ rest) = (caller, err e) ∷ told e rest

  unfoldable pub drain : McpError → Supervisor j → Supervisor j
  unfolding told
  drain e s = record s { pending = []; settled = s.settled ++ told e s.pending }

  -- The end of the child's standard output, when the reader gets to see it.
  unfoldable pub on_eof : Supervisor j → Supervisor j
  unfolding drain
  on_eof s = drain (process_exited (lit "Child process stdout closed")) s

  unfoldable pub stop : Supervisor j → Supervisor j
  unfolding drain
  stop s =
      drain supervisor_terminated
        (record s { shutdown_requested = true; is_alive = false; stdin_open = false })

  -- A child was started, with its three pipes.
  unfoldable pub on_spawn : Supervisor j → Supervisor j
  on_spawn s = record s { stdin_open = true; is_alive = true }

  -- The child has exited: whether the loop goes on to start another.
  unfoldable pub on_exit : Supervisor j → Bool × Supervisor j
  on_exit s =
      let s' = record s { is_alive = false; stdin_open = false } in
      let restarts = (s.restart_count + 1) % 2 ^ 32 in
      if s.shutdown_requested
      then (false, s')
      else if s.config.auto_restart
      then (leb restarts s.config.max_restart_attempts, record s' { restart_count = restarts })
      else (false, s')
