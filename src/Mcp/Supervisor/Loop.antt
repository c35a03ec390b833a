-- ===== src/Mcp/Supervisor/Loop.antt =====
-- supervisor.rs: `start` and the whole of `run_loop`, over the children that it starts one after the
-- other. The tasks that copy the pipes are the events of a child's life.
use syntropy.Prelude.{
  ℕ, ◌≡◌, ◌≤◌, ◌<◌, ◌+◌, ◌-◌, ◌^◌, refl, ap, ◌∙◌, Bool, true, false, Option, none, some, lit, List,
  [], ◌∷◌, ◌++◌, Text, Result, ok, err, if◌then◌else◌, length, Bool-cases, inl, inr, arith,
}
use syntropy.Mcp.Protocol.{
  JsonValue, JsonRpcRequest, JsonRpcResponse, McpError, process_spawn_failed, process_exited,
  supervisor_terminated,
}
use syntropy.Mcp.Supervisor.{
  McpServerConfig, Supervisor, Sending, send_request, enqueue, wait_for, on_line, on_eof, drain,
  stop, on_spawn, on_exit,
}

-- What callers and the reader do while the loop waits.
pub data Meanwhile (j : JsonValue) : Type 0 where
  asks : Sending j → ℕ → JsonRpcRequest j → Meanwhile j
  answers : Option (JsonRpcResponse j) → Meanwhile j
  output_ends stops : Meanwhile j

-- A child: it does not start, it lacks a pipe, or it lives and exits, and the loop may sleep.
pub data Child (j : JsonValue) : Type 0 where
  not_started : Text → Child j
  without_pipes : Child j
  lives : List (Meanwhile j) → List (Meanwhile j) → Child j

module _ {j : JsonValue} where
  -- What `start` makes before the loop.
  abbrev pub new_supervisor : McpServerConfig → Supervisor j
  new_supervisor config = record {
    config = config;
    stdin_open = false;
    sent = [];
    pending = [];
    is_alive = false;
    restart_count = 0;
    shutdown_requested = false;
    settled = [];
  }

  unfoldable pub meanwhile : List (Meanwhile j) → Supervisor j → Supervisor j
  unfolding send_request on_line on_eof stop
  meanwhile [] s = s
  meanwhile (asks o caller request ∷ ms) s = meanwhile ms (send_request o caller request s).1
  meanwhile (answers response ∷ ms) s = meanwhile ms (on_line response s)
  meanwhile (output_ends ∷ ms) s = meanwhile ms (on_eof s)
  meanwhile (stops ∷ ms) s = meanwhile ms (stop s)

  -- One round of the loop: whether it goes on.
  unfoldable pub one_child : Child j → Supervisor j → Bool × Supervisor j
  unfolding meanwhile on_spawn on_exit
  one_child (not_started e) s = (false, s)
  one_child without_pipes s = (false, s)
  one_child (lives during asleep) s =
      let (again, s') = on_exit (meanwhile during (on_spawn s)) in
      if again then (true, meanwhile asleep s') else (false, s')

  -- `while !shutdown_requested`, over the children of its rounds.
  unfoldable pub run_loop : List (Child j) → Supervisor j → Supervisor j
  unfolding one_child
  run_loop [] s = s
  run_loop (child ∷ children) s =
      let (again, s') = one_child child s in
      let rest = run_loop children s' in
      if s.shutdown_requested then s else if again then rest else s'

  -- What the loop reports of its first child, which `start` waits for.
  unfoldable pub start : Child j → McpServerConfig → Result McpError (Supervisor j)
  start (not_started e) config = err (process_spawn_failed e)
  start without_pipes config = ok (new_supervisor config)
  start (lives during asleep) config = ok (new_supervisor config)

  -- The calls in between change neither the configuration nor the count, and start no child.
  abbrev IsCalm : Supervisor j → Supervisor j → Type 0
  IsCalm s s' =
      (s'.config ≡ s.config)
      × (s'.restart_count ≡ s.restart_count)
      × (s.is_alive ≡ false → s'.is_alive ≡ false)

  IsCalm-trans : (a b c : Supervisor j) → IsCalm a b → IsCalm b c → IsCalm a c
  IsCalm-trans a b c (p, q, r) (p', q', r') = (p' ∙ p, q' ∙ q, (λ h. r' (r h)))

  send_request-IsCalm :
      (o : Sending j) (caller : ℕ) (request : JsonRpcRequest j) (s : Supervisor j)
      → IsCalm s (send_request o caller request s).1
  unfolding send_request enqueue wait_for
  send_request-IsCalm o caller request s = (ground arith, ground arith, (λ h. ground arith))

  on_line-IsCalm : (r : Option (JsonRpcResponse j)) (s : Supervisor j) → IsCalm s (on_line r s)
  unfolding on_line
  on_line-IsCalm none s = (refl, refl, (λ h. h))
  on_line-IsCalm (some r) s = (ground arith, ground arith, (λ h. ground arith))

  on_eof-IsCalm : (s : Supervisor j) → IsCalm s (on_eof s)
  unfolding on_eof drain
  on_eof-IsCalm s = (refl, refl, (λ h. h))

  stop-IsCalm : (s : Supervisor j) → IsCalm s (stop s)
  unfolding stop drain
  stop-IsCalm s = (refl, refl, (λ h. refl))

  meanwhile-IsCalm : (ms : List (Meanwhile j)) (s : Supervisor j) → IsCalm s (meanwhile ms s)
  unfolding meanwhile
  meanwhile-IsCalm [] s = (refl, refl, (λ h. h))
  meanwhile-IsCalm (asks o caller request ∷ ms) s =
      let s' = (send_request o caller request s).1 in
      IsCalm-trans s s' (meanwhile ms s') (send_request-IsCalm o caller request s)
        (meanwhile-IsCalm ms s')
  meanwhile-IsCalm (answers r ∷ ms) s =
      IsCalm-trans s (on_line r s) (meanwhile ms (on_line r s)) (on_line-IsCalm r s)
        (meanwhile-IsCalm ms (on_line r s))
  meanwhile-IsCalm (output_ends ∷ ms) s =
      IsCalm-trans s (on_eof s) (meanwhile ms (on_eof s)) (on_eof-IsCalm s)
        (meanwhile-IsCalm ms (on_eof s))
  meanwhile-IsCalm (stops ∷ ms) s =
      IsCalm-trans s (stop s) (meanwhile ms (stop s)) (stop-IsCalm s) (meanwhile-IsCalm ms (stop s))

  -- The loop goes on after an exit only if it has counted one restart more, within the limit.
  on_exit-again :
      (s : Supervisor j)
      → s.config.max_restart_attempts + 1 < 2 ^ 32
      → s.restart_count ≤ s.config.max_restart_attempts
      → (on_exit s).0 ≡ true
      → ((on_exit s).1.restart_count ≡ s.restart_count + 1)
        × (s.restart_count + 1 ≤ s.config.max_restart_attempts)
  unfolding on_exit
  on_exit-again s fits counted h = ground arith

  on_exit-config :
      (s : Supervisor j) → ((on_exit s).1.config ≡ s.config) × ((on_exit s).1.is_alive ≡ false)
  unfolding on_exit
  on_exit-config s = (ground arith, ground arith)

  one_child-again :
      (child : Child j) (s : Supervisor j)
      → s.config.max_restart_attempts + 1 < 2 ^ 32
      → s.restart_count ≤ s.config.max_restart_attempts
      → (one_child child s).0 ≡ true
      → ((one_child child s).1.restart_count ≡ s.restart_count + 1)
        × (s.restart_count + 1 ≤ s.config.max_restart_attempts)
        × ((one_child child s).1.config ≡ s.config)
  unfolding one_child on_spawn
  one_child-again (not_started e) s fits counted h = absurd (ground arith)
  one_child-again without_pipes s fits counted h = absurd (ground arith)
  one_child-again (lives during asleep) s fits counted h =
      let s1 = meanwhile during (on_spawn s) in
      let s2 = (on_exit s1).1 in
      let (same, kept, dead) = meanwhile-IsCalm during (on_spawn s) in
      let (same', kept', dead') = meanwhile-IsCalm asleep s2 in
      let limit : s1.config.max_restart_attempts ≡ s.config.max_restart_attempts =
        ap (λ c. c.max_restart_attempts) same in
      let again : (on_exit s1).0 ≡ true = ground arith in
      let (one, within) =
        on_exit-again s1 (omega (arith, limit)) (omega (arith, limit, kept)) again in
      rw again (
        omega (arith, kept', one, kept),
        omega (arith, within, limit, kept),
        same' ∙ (on_exit-config s1).0 ∙ same,
      )

  one_child-dead :
      (child : Child j) (s : Supervisor j)
      → s.is_alive ≡ false
      → (one_child child s).1.is_alive ≡ false
  unfolding one_child
  one_child-dead (not_started e) s h = h
  one_child-dead without_pipes s h = h
  one_child-dead (lives during asleep) s h =
      let s1 = meanwhile during (on_spawn s) in
      let (same', kept', dead') = meanwhile-IsCalm asleep (on_exit s1).1 in
      elim (Bool-cases (on_exit s1).0) [
        | inl again ↦ rw again (dead' (on_exit-config s1).1)
        | inr over ↦ rw over (on_exit-config s1).1
      ]

  run_loop-dead :
      (children : List (Child j)) (s : Supervisor j)
      → s.is_alive ≡ false
      → (run_loop children s).is_alive ≡ false
  unfolding run_loop
  run_loop-dead [] s h = h
  run_loop-dead (child ∷ children) s h =
      let s' = (one_child child s).1 in
      let rest = run_loop-dead children s' (one_child-dead child s h) in
      ground (arith, rest, one_child-dead child s h)

  -- More children than the first and the restarts that are left are never started.
  run_loop-append :
      (children more : List (Child j)) (s : Supervisor j)
      → s.config.max_restart_attempts + 1 < 2 ^ 32
      → s.restart_count ≤ s.config.max_restart_attempts
      → 1 + (s.config.max_restart_attempts - s.restart_count) ≤ length children
      → run_loop (children ++ more) s ≡ run_loop children s
  unfolding run_loop
  run_loop-append [] more s fits counted enough = absurd (omega arith)
  run_loop-append (child ∷ children) more s fits counted enough =
      elim (Bool-cases (one_child child s).0) [
        | inr over ↦ ground (arith, over)
        | inl again ↦
            let s' = (one_child child s).1 in
            let (one, within, same) = one_child-again child s fits counted again in
            let limit = ap (λ c. c.max_restart_attempts) same in
            let rest =
              run_loop-append children more s' (omega (arith, limit)) (omega (arith, limit, one))
                (omega (arith, limit, one, enough)) in
            ground (arith, again, rest)
      ]

-- The loop of a new supervisor whose limit is below the largest 32-bit number starts no child
-- behind the first and as many restarts as are allowed; and at its end a request is refused,
-- whoever makes it, so that nobody begins to wait.
pub run_loop_ends :
    {j : JsonValue} (config : McpServerConfig) (children more : List (Child j)) (o : Sending j)
    (caller : ℕ) (request : JsonRpcRequest j)
    → config.max_restart_attempts + 1 < 2 ^ 32
    → length children ≡ 1 + config.max_restart_attempts
    → (run_loop (children ++ more) (new_supervisor config)
        ≡ run_loop children (new_supervisor config))
      × ((e : McpError) × (send_request o caller request (run_loop children (new_supervisor config))
            ≡ (err e, run_loop children (new_supervisor config))))
unfolding send_request
run_loop_ends config children more o caller request fits all =
    let s = run_loop children (new_supervisor config) in
    let dead : s.is_alive ≡ false = run_loop-dead children (new_supervisor config) refl in
    (
      run_loop-append children more (new_supervisor config) fits (omega arith) (omega (arith, all)),
      elim (Bool-cases s.shutdown_requested) [
        | inl t ↦ (supervisor_terminated, ground (arith, t))
        | inr f ↦ (process_exited (lit "Child MCP process is not running"), ground (arith, f, dead))
      ],
    )
