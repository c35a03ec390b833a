-- ===== src/Cli/Turn/Steps.antt =====
-- syntropy-cli/src/ui.rs: what one frame of a turn comes to.
use syntropy.Prelude.{
  List, ◌∷◌, Option, [], if◌then◌else◌, ◌≡◌, refl, ◌⊎◌, inl, inr, true, false, none, some, Text,
  lit, text_eq, ok, err, Result-cases, arith,
}
use syntropy.Security.Crypto.{Crypto}
use syntropy.Security.Ledger.Database.{AuditEntry, Sqlite}
use syntropy.Security.Ledger.Merkle.{compute_merkle_root}
use syntropy.Exec.Jail.{with_allowed_paths, FileSystem, WorkspaceJail, resolve_path, validate_cwd}
use syntropy.Exec.Screens.Table.{Screens, spawn_screen}
use syntropy.Exec.Diff.Commit.{PatchApplyResult, Files}
use syntropy.Exec.Diff.Parser.{apply_patch}
use syntropy.Tunnel.Frames.{ExecCommand, ApplyPatch, ServerPayload}
use syntropy.Cli.Turn.{
  ChatRequest, ChatResponse, Start, begin_turn, end_turn, execute_turn_via_tunnel, Outside, Arrival,
  arrives, on_frame, run_turn, TurnError, TurnState, ledger_error, jail_error, pty_error,
  record_action, report_command, report_output, run_exec, run_patch, report_patch, patch_options,
  options_of, serve, receive, full_output, ui_screen,
}

module _ {c : Crypto} {s : Sqlite} {fs : FileSystem} where
  -- A command fails before its screen starts, or it runs and is reported.
  pub run_exec-cases :
      (w : Outside) (jail : WorkspaceJail fs) (cmd : ExecCommand) (t : TurnState c s fs)
      → ((e : TurnError c s fs) × (screens : Screens) × (files : Files) × ((files ≡ t.files)
            ⊎ (files ≡ w.effects t.files))
          × (run_exec c s fs w jail cmd t ≡ (err e, record t { screens = screens; files = files })))
        ⊎ ((dir : fs.PathBuf) × (started : Screens) × (spawn_screen ui_screen
                (options_of c s fs cmd dir)
                w.now
                w.spawned_as
                t.screens
              ≡ (ok tt, started))
            × (run_exec c s fs w jail cmd t
                ≡ report_command c s fs w cmd
                    (full_output (receive w.received (serve w.events started)))
                    (record t { screens = serve w.events started; files = w.effects t.files })))
  unfolding run_exec
  run_exec-cases w jail cmd t =
      let cwd_path =
        if text_eq cmd.working_dir [] then none else some (fs.of_text cmd.working_dir) in
      elim (Result-cases (validate_cwd jail cwd_path)) [
        | inr (e, f) ↦ inl (jail_error e, t.screens, t.files, inl refl, ground (arith, f))
        | inl (dir, f) ↦
            let after =
              spawn_screen ui_screen (options_of c s fs cmd dir) w.now w.spawned_as t.screens in
            elim (Result-cases after.0) [
              | inr (e, g) ↦
                  inl (pty_error e, after.1, w.effects t.files, inr refl, ground (arith, f, g))
              | inl (u, g) ↦ inr (dir, after.1, ground (arith, g), ground (arith, f, g))
            ]
      ]

  -- Reporting a command fails at the ledger, or records it.
  pub report_command-cases :
      (w : Outside) (cmd : ExecCommand) (output : Text) (t : TurnState c s fs)
      → let logged = record_action c s fs w (lit "exec_command") output t in
        ((e : TurnError c s fs) × (report_command c s fs w cmd output t
            ≡ (err e, record t { db = logged.1 })))
        ⊎ ((entry : AuditEntry) × (logged.0 ≡ ok entry)
            × (report_command c s fs w cmd output t
                ≡ (ok false, report_output c s fs w cmd output (record t { db = logged.1 }))))
  unfolding report_command
  report_command-cases w cmd output t =
      elim (Result-cases (record_action c s fs w (lit "exec_command") output t).0) [
        | inr (e, f) ↦ inl (ledger_error e, ground (arith, f))
        | inl (entry, f) ↦ inr (entry, f, ground (arith, f))
      ]

  -- A patch fails at the jail; it fails and is reported; it is applied and the ledger fails; or it
  -- is applied, recorded and reported.
  pub run_patch-cases :
      (w : Outside) (jail : WorkspaceJail fs) (patch : ApplyPatch) (t : TurnState c s fs)
      → ((e : TurnError c s fs) × (run_patch c s fs w jail patch t ≡ (err e, t)))
        ⊎ ((p : fs.PathBuf) × (resolve_path jail (fs.of_text patch.file_path) ≡ ok p)
            × (let files =
                  (apply_patch c patch.diff w.surroundings
                    (fs.to_text p)
                    (patch_options c s fs patch)
                    t.files).1 in
                let logged = record_action c s fs w (lit "apply_patch") patch.diff t in
                ((m : Text) × (run_patch c s fs w jail patch t ≡ (
                  ok false,
                  report_patch c s fs patch false m 0 0 (record t { files = files }),
                )))
                ⊎ ((e : TurnError c s fs) × (run_patch c s fs w jail patch t
                      ≡ (err e, record t { files = files; db = logged.1 })))
                ⊎ ((entry : AuditEntry) × (r : PatchApplyResult) × (logged.0 ≡ ok entry)
                    × (run_patch c s fs w jail patch t ≡ (
                      ok false,
                      report_patch c s fs patch true [] r.lines_added r.lines_removed
                          (record t { files = files; db = logged.1 }),
                    )))))
  unfolding run_patch
  run_patch-cases w jail patch t =
      elim (Result-cases (resolve_path jail (fs.of_text patch.file_path))) [
        | inr (e, f) ↦ inl (jail_error e, ground (arith, f))
        | inl (p, f) ↦
            let after =
              apply_patch c patch.diff w.surroundings (fs.to_text p) (patch_options c s fs patch)
                t.files in
            let logged = record_action c s fs w (lit "apply_patch") patch.diff t in
            inr (
              p,
              f,
              elim (Result-cases after.0) [
                | inr (e, g) ↦ inl (w.diff_text e, ground (arith, f, g))
                | inl (r, g) ↦ elim (Result-cases logged.0) [
                  | inr (e, h) ↦ inr (inl (ledger_error e, ground (arith, f, g, h)))
                  | inl (entry, h) ↦ inr (inr (entry, r, h, ground (arith, f, g, h)))
                ]
              ],
            )
      ]

  -- The loop goes on with what a frame leaves, or stops there.
  pub run_turn-cases :
      (jail : WorkspaceJail fs) (payload : Option ServerPayload) (w : Outside)
      (arrivals : List Arrival) (t : TurnState c s fs)
      → let after = on_frame c s fs w jail payload t in
        let whole = run_turn c s fs jail (arrives payload w ∷ arrivals) t in
        ((e : TurnError c s fs) × (whole ≡ (err e, after.1)))
        ⊎ ((after.0 ≡ ok true) × (whole ≡ (ok tt, after.1)))
        ⊎ ((after.0 ≡ ok false) × (whole ≡ run_turn c s fs jail arrivals after.1))
  unfolding run_turn
  run_turn-cases jail payload w arrivals t =
      elim (Result-cases (on_frame c s fs w jail payload t).0) [
        | inr (e, f) ↦ inl (e, ground (arith, f))
        | inl (true, f) ↦ inr (inl (f, ground (arith, f)))
        | inl (false, f) ↦ inr (inr (f, ground (arith, f)))
      ]

  -- A turn that begins has the jail of its workspace and an open ledger, and has done nothing yet.
  pub begin_turn-ok :
      (b : Start c s fs) (workspace : fs.PathBuf) (files : Files) (jail : WorkspaceJail fs)
      (t : TurnState c s fs)
      → begin_turn c s fs b workspace files ≡ ok (jail, t)
      → (with_allowed_paths fs workspace [] ≡ ok jail)
        × (t.files ≡ files)
        × (t.tool_executions ≡ [])
        × (t.sent ≡ [])
        × (b.opened ≡ ok t.db)
  unfolding begin_turn
  begin_turn-ok b workspace files jail t h =
      elim (Result-cases (with_allowed_paths fs workspace [])) [
        | inl (made, f) ↦ elim (Result-cases b.connected) [
          | inl (u, p) ↦ elim (Result-cases b.prompt_sent) [
            | inl (v, q) ↦ elim (Result-cases b.opened) [
              | inl (db, o) ↦ (
                ground (arith, f, p, q, o),
                ground (arith, f, p, q, o),
                ground (arith, f, p, q, o),
                ground (arith, f, p, q, o),
                ground (arith, f, p, q, o),
              )
              | inr (e, o) ↦ absurd (ground (arith, f, p, q, o))
            ]
            | inr (e, q) ↦ absurd (ground (arith, p, q))
          ]
          | inr (e, p) ↦ absurd (ground (arith, p))
        ]
        | inr (e, f) ↦ elim (Result-cases b.connected) [
          | inl (u, p) ↦ elim (Result-cases b.prompt_sent) [
            | inl (v, q) ↦ absurd (ground (arith, f, p, q))
            | inr (e, q) ↦ absurd (ground (arith, p, q))
          ]
          | inr (e, p) ↦ absurd (ground (arith, p))
        ]
      ]

  end_turn-ok :
      (req : ChatRequest) (t : TurnState c s fs) (resp : ChatResponse)
      → end_turn c s fs req t ≡ ok resp
      → resp.tool_executions ≡ t.tool_executions
  unfolding end_turn
  end_turn-ok req t resp h = elim (Result-cases (compute_merkle_root c s false t.db)) [
    | inl (root, f) ↦ ground (arith, f)
    | inr (e, f) ↦ absurd (ground (arith, f))
  ]

  -- A turn that is answered began, came to the end of its loop, and reports the tools of its state.
  pub execute_turn_via_tunnel-ok :
      (req : ChatRequest) (b : Start c s fs) (workspace : fs.PathBuf) (arrivals : List Arrival)
      (files : Files) (resp : ChatResponse) (o : Option (TurnState c s fs))
      → execute_turn_via_tunnel c s fs req b workspace arrivals files ≡ (ok resp, o)
      → (jail : WorkspaceJail fs) × (t0 : TurnState c s fs) × (t : TurnState c s fs) × (begin_turn c
            s fs b workspace files
          ≡ ok (jail, t0))
        × (run_turn c s fs jail arrivals t0 ≡ (ok tt, t))
        × (o ≡ some t)
        × (resp.tool_executions ≡ t.tool_executions)
  unfolding execute_turn_via_tunnel
  execute_turn_via_tunnel-ok req b workspace arrivals files resp o h =
      elim (Result-cases (begin_turn c s fs b workspace files)) [
        | inr (e, f) ↦ absurd (ground (arith, f))
        | inl ((jail, t0), f) ↦
            let after = run_turn c s fs jail arrivals t0 in
            elim (Result-cases after.0) [
              | inr (e, g) ↦ absurd (ground (arith, f, g))
              | inl (u, g) ↦ (
                jail,
                t0,
                after.1,
                f,
                ground (arith, g),
                ground (arith, f, g),
                end_turn-ok req after.1 resp (ground (arith, f, g)),
              )
            ]
      ]
