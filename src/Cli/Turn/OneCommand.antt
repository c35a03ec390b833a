-- ===== src/Cli/Turn/OneCommand.antt =====
-- syntropy-cli/src/ui.rs: the commands of a turn, whose screens have one name.
use syntropy.Prelude.{
  ◌+◌, ◌≤◌, ℕ, ◌≡◌, ◌⊎◌, inl, inr, sym, ap, ◌∙◌, false, true, Bool, Option, none, some, List, [],
  ◌∷◌, ◌++◌, lit, text_eq, lookup, lookup-insert_self, ok, if◌then◌else◌, arith,
}
use syntropy.Security.Crypto.{Crypto}
use syntropy.Security.Ledger.Database.{Sqlite}
use syntropy.Exec.Jail.{FileSystem, WorkspaceJail}
use syntropy.Exec.Screens.{ScreenSession, spawned}
use syntropy.Exec.Screens.Table.{Screens}
use syntropy.Exec.Screens.Threads.{Event, run}
use syntropy.Exec.Screens.Calls.{spawn_screen_unique}
use syntropy.Tunnel.Frames.{
  ExecCommand, ApplyPatch, ServerPayload, exec_command, error_frame, agent_message, heartbeat,
  other_payload,
}
use syntropy.Cli.Turn.{
  Outside, Arrival, arrives, closed, silent, TurnState, ExecutedTool, on_frame, run_exec, run_patch,
  run_turn, serve, receive, full_output, ui_screen, options_of, execute_turn_via_tunnel,
  ChatRequest, ChatResponse, Start,
}
use syntropy.Exec.Diff.Commit.{Files}
use syntropy.Cli.Turn.Steps.{
  run_exec-cases, report_command-cases, run_patch-cases, run_turn-cases, begin_turn-ok,
  execute_turn_via_tunnel-ok,
}

-- The number of the commands among the tools that a turn reports.
unfoldable pub commands : List ExecutedTool → ℕ
unfolding text_eq
commands [] = 0
commands (tool ∷ tools) =
    (if text_eq tool.tool_type (lit "exec_command") then 1 else 0) + commands tools

commands-append : (a b : List ExecutedTool) → commands (a ++ b) ≡ commands a + commands b
unfolding commands
commands-append [] b = omega arith
commands-append (tool ∷ a) b = omega (arith, commands-append a b)

serve-kept :
    (events : List Event) (screens : Screens) (x : ScreenSession)
    → lookup ui_screen screens ≡ some x
    → lookup ui_screen (serve events screens) ≡ some (run events x)
unfolding serve
serve-kept events screens x h =
    ground (arith, h, lookup-insert_self ui_screen (run events x) screens)

module _ {c : Crypto} {s : Sqlite} {fs : FileSystem} where
  -- No command has been reported, or one has and its screen is in the table.
  abbrev pub IsSingle : TurnState c s fs → Type 0
  IsSingle t =
      (commands t.tool_executions ≡ 0)
      ⊎ ((x : ScreenSession) × (lookup ui_screen t.screens ≡ some x)
          × (commands t.tool_executions ≡ 1))

  run_exec-IsSingle :
      (w : Outside) (jail : WorkspaceJail fs) (cmd : ExecCommand) (t : TurnState c s fs) (b : Bool)
      → IsSingle t
      → (run_exec c s fs w jail cmd t).0 ≡ ok b
      → IsSingle (run_exec c s fs w jail cmd t).1
  unfolding commands
  run_exec-IsSingle w jail cmd t b single h = elim (run_exec-cases w jail cmd t) [
    | inl (e, screens, files, from, f) ↦ absurd (ground (arith, ap (λ r. r.0) f, h))
    | inr (dir, started, ran, f) ↦
        let output = full_output (receive w.received (serve w.events started)) in
        let opts = options_of c s fs cmd dir in
        let (free, registered, again) =
          spawn_screen_unique ui_screen opts opts w.now w.now w.spawned_as w.spawned_as t.screens
            started ran in
        elim (report_command-cases w cmd output
          (record t { screens = serve w.events started; files = w.effects t.files })) [
            | inl (e, g) ↦ absurd (ground (arith, ap (λ r. r.0) (f ∙ g), h))
            | inr (entry, logged, g) ↦ elim single [
              | inr (x, there, one) ↦ absurd (ground (arith, free, there))
              | inl zero_of ↦ rw (f ∙ g) (
                  inr (
                    run w.events (spawned ui_screen opts w.now),
                    serve-kept w.events started (spawned ui_screen opts w.now) registered.0,
                    omega (arith, commands-append t.tool_executions _, zero_of),
                  ))
            ]
          ]
  ]

  run_patch-IsSingle :
      (w : Outside) (jail : WorkspaceJail fs) (patch : ApplyPatch) (t : TurnState c s fs) (b : Bool)
      → IsSingle t
      → (run_patch c s fs w jail patch t).0 ≡ ok b
      → IsSingle (run_patch c s fs w jail patch t).1
  unfolding commands
  run_patch-IsSingle w jail patch t b single h = elim (run_patch-cases w jail patch t) [
    | inl (e, f) ↦ absurd (ground (arith, ap (λ r. r.0) f, h))
    | inr (p, found, inl (m, f)) ↦ rw f (elim single [
      | inl none_yet ↦ inl (omega (arith, commands-append t.tool_executions _, none_yet))
      | inr (x, there, one) ↦
          inr (x, there, omega (arith, commands-append t.tool_executions _, one))
    ])
    | inr (p, found, inr (inl (e, f))) ↦ absurd (ground (arith, ap (λ r. r.0) f, h))
    | inr (p, found, inr (inr (entry, r, logged, f))) ↦ rw f (elim single [
      | inl none_yet ↦ inl (omega (arith, commands-append t.tool_executions _, none_yet))
      | inr (x, there, one) ↦
          inr (x, there, omega (arith, commands-append t.tool_executions _, one))
    ])
  ]

  on_frame-IsSingle :
      (w : Outside) (jail : WorkspaceJail fs) (payload : Option ServerPayload)
      (t : TurnState c s fs) (b : Bool)
      → IsSingle t
      → (on_frame c s fs w jail payload t).0 ≡ ok b
      → IsSingle (on_frame c s fs w jail payload t).1
  unfolding on_frame
  on_frame-IsSingle w jail none t b single h = single
  on_frame-IsSingle w jail (some (agent_message msg)) t b single h = single
  on_frame-IsSingle w jail (some (error_frame e)) t b single h = absurd (ground arith)
  on_frame-IsSingle w jail (some (heartbeat hb)) t b single h = single
  on_frame-IsSingle w jail (some (other_payload bytes)) t b single h = single
  on_frame-IsSingle w jail (some (exec_command cmd)) t b single h =
      run_exec-IsSingle w jail cmd t b single h
  on_frame-IsSingle w jail (some (ServerPayload.apply_patch patch)) t b single h =
      run_patch-IsSingle w jail patch t b single h

  run_turn-IsSingle :
      (jail : WorkspaceJail fs) (arrivals : List Arrival) (t t' : TurnState c s fs)
      → IsSingle t
      → run_turn c s fs jail arrivals t ≡ (ok tt, t')
      → IsSingle t'
  unfolding run_turn
  run_turn-IsSingle jail [] t t' single h = rw (← ap (λ r. r.1) h) single
  run_turn-IsSingle jail (closed ∷ arrivals) t t' single h = rw (← ap (λ r. r.1) h) single
  run_turn-IsSingle jail (silent ∷ arrivals) t t' single h = rw (← ap (λ r. r.1) h) single
  run_turn-IsSingle jail (arrives payload w ∷ arrivals) t t' single h =
      elim (run_turn-cases jail payload w arrivals t) [
        | inl (e, f) ↦ absurd (ground (arith, ap (λ r. r.0) f, ap (λ r. r.0) h))
        | inr (inl (last, f)) ↦
            rw (← ap (λ r. r.1) h, f) (on_frame-IsSingle w jail payload t true single last)
        | inr (inr (more, f)) ↦
            run_turn-IsSingle jail arrivals (on_frame c s fs w jail payload t).1 t'
              (on_frame-IsSingle w jail payload t false single more) (sym f ∙ h)
      ]

  -- A turn that is answered reports at most one command: all commands of a turn run on one screen
  -- name, which the first of them takes for the whole turn.
  pub execute_turn_via_tunnel_one_command :
      (req : ChatRequest) (b : Start c s fs) (workspace : fs.PathBuf) (arrivals : List Arrival)
      (files : Files) (resp : ChatResponse) (o : Option (TurnState c s fs))
      → execute_turn_via_tunnel c s fs req b workspace arrivals files ≡ (ok resp, o)
      → commands resp.tool_executions ≤ 1
  unfolding commands
  execute_turn_via_tunnel_one_command req b workspace arrivals files resp o h =
      let (jail, t0, t, began, ran, left, tools) =
        execute_turn_via_tunnel-ok req b workspace arrivals files resp o h in
      let (made, from, fresh, sent, opened) = begin_turn-ok b workspace files jail t0 began in
      let done = run_turn-IsSingle jail arrivals t0 t (inl (ap commands fresh)) ran in
      rw tools (elim done [
        | inl none_yet ↦ omega (arith, none_yet)
        | inr (x, there, one) ↦ omega (arith, one)
      ])
