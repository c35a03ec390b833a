-- ===== src/Cli/Turn/Contained.antt =====
-- syntropy-cli/src/ui.rs: which files a turn changes.
use syntropy.Prelude.{
  ◌≡◌, ◌⊎◌, inl, inr, refl, sym, ap, ◌∙◌, false, true, Option, none, some, List, [], ◌∷◌, Text,
  text_eq, text_eq_iff, lookup, Result, ok, Result-cases, Bool-cases, arith,
}
use syntropy.Security.Crypto.{Crypto}
use syntropy.Security.Ledger.Database.{Sqlite}
use syntropy.Exec.Jail.{FileSystem, WorkspaceJail, resolve_path, is_contained, with_allowed_paths}
use syntropy.Exec.Jail.Containment.{resolve_path-contained}
use syntropy.Exec.Diff.Commit.{Files}
use syntropy.Exec.Diff.Parser.Others.{apply_patch_others}
use syntropy.Tunnel.Frames.{
  ExecCommand, ApplyPatch, ServerPayload, exec_command, error_frame, agent_message, heartbeat,
  other_payload,
}
use syntropy.Cli.Turn.{
  Outside, Arrival, arrives, closed, silent, TurnError, TurnState, ChatRequest, ChatResponse, Start,
  on_frame, run_exec, run_patch, run_turn, begin_turn, execute_turn_via_tunnel, patch_options,
  serve, receive, full_output,
}
use syntropy.Cli.Turn.Steps.{
  run_exec-cases, report_command-cases, run_patch-cases, run_turn-cases, begin_turn-ok,
}

-- The name is not one of a shadow file of the patches that arrive, and the commands that run leave
-- the file alone.
abbrev pub IsApart : Text → List Arrival → Type 0
IsApart k [] = Unit
IsApart k (closed ∷ arrivals) = IsApart k arrivals
IsApart k (silent ∷ arrivals) = IsApart k arrivals
IsApart k (arrives payload w ∷ arrivals) =
    (text_eq w.surroundings.shadow_path k ≡ false)
    × ((files : Files) → lookup k (w.effects files) ≡ lookup k files)
    × IsApart k arrivals

-- A patch with this path is in the frame, or among those that arrive.
abbrev pub IsFor : Text → Option ServerPayload → Type 0
IsFor path none = ⊥
IsFor path (some (agent_message msg)) = ⊥
IsFor path (some (error_frame e)) = ⊥
IsFor path (some (heartbeat hb)) = ⊥
IsFor path (some (other_payload bytes)) = ⊥
IsFor path (some (exec_command cmd)) = ⊥
IsFor path (some (ServerPayload.apply_patch patch)) = patch.file_path ≡ path

abbrev pub IsAmong : Text → List Arrival → Type 0
IsAmong path [] = ⊥
IsAmong path (closed ∷ arrivals) = IsAmong path arrivals
IsAmong path (silent ∷ arrivals) = IsAmong path arrivals
IsAmong path (arrives payload w ∷ arrivals) = IsFor path payload ⊎ IsAmong path arrivals

module _ {fs : FileSystem} where
  -- The jail resolved the path to this file, which is inside of it.
  abbrev pub IsResolved : WorkspaceJail fs → Text → Text → Type 0
  IsResolved jail path k =
      (p : fs.PathBuf) × (resolve_path jail (fs.of_text path) ≡ ok p)
      × (is_contained jail p ≡ true)
      × (k ≡ fs.to_text p)

  -- The file is as it was, or it is one that the jail resolved the path of a patch to.
  abbrev pub IsJailed : (Text → Type 0) → WorkspaceJail fs → Text → Files → Files → Type 0
  IsJailed P jail k before after =
      (lookup k after ≡ lookup k before) ⊎ ((path : Text) × P path × IsResolved jail path k)

module _ {c : Crypto} {s : Sqlite} {fs : FileSystem} where
  run_exec-files :
      (w : Outside) (jail : WorkspaceJail fs) (cmd : ExecCommand) (t : TurnState c s fs) (k : Text)
      → ((files : Files) → lookup k (w.effects files) ≡ lookup k files)
      → lookup k (run_exec c s fs w jail cmd t).1.files ≡ lookup k t.files
  run_exec-files w jail cmd t k calm = elim (run_exec-cases w jail cmd t) [
    | inl (e, screens, files, from, f) ↦
        rw f
          (elim from [ inl same ↦ ap (lookup k) same | inr ran ↦ ap (lookup k) ran ∙ calm t.files ])
    | inr (dir, started, spawned, f) ↦
        elim (report_command-cases w cmd (full_output (receive w.received (serve w.events started)))
          (record t { screens = serve w.events started; files = w.effects t.files })) [
            | inl (e, g) ↦ rw f (rw g (calm t.files))
            | inr (entry, logged, g) ↦ rw f (rw g (calm t.files))
          ]
  ]

  run_patch-files :
      (w : Outside) (jail : WorkspaceJail fs) (patch : ApplyPatch) (t : TurnState c s fs) (k : Text)
      → text_eq w.surroundings.shadow_path k ≡ false
      → (lookup k (run_patch c s fs w jail patch t).1.files ≡ lookup k t.files)
        ⊎ IsResolved jail patch.file_path k
  run_patch-files w jail patch t k shadow = elim (run_patch-cases w jail patch t) [
    | inl (e, f) ↦ inl (rw f refl)
    | inr (p, found, outcome) ↦ elim (Bool-cases (text_eq (fs.to_text p) k)) [
      | inl same ↦ inr (
        p,
        found,
        resolve_path-contained jail (fs.of_text patch.file_path) p found,
        sym ((text_eq_iff (fs.to_text p) k).0 same),
      )
      | inr other ↦
          let kept =
            apply_patch_others c patch.diff w.surroundings (fs.to_text p) k
              (patch_options c s fs patch) t.files other shadow in
          inl (elim outcome [
            | inl (m, f) ↦ rw f kept
            | inr (inl (e, f)) ↦ rw f kept
            | inr (inr (entry, r, logged, f)) ↦ rw f kept
          ])
    ]
  ]

  on_frame-files :
      (w : Outside) (jail : WorkspaceJail fs) (payload : Option ServerPayload)
      (t : TurnState c s fs) (k : Text)
      → text_eq w.surroundings.shadow_path k ≡ false
      → ((files : Files) → lookup k (w.effects files) ≡ lookup k files)
      → IsJailed
          (λ path. IsFor path payload)
          jail
          k
          t.files
          (on_frame c s fs w jail payload t).1.files
  unfolding on_frame
  on_frame-files w jail none t k shadow calm = inl refl
  on_frame-files w jail (some (agent_message msg)) t k shadow calm = inl refl
  on_frame-files w jail (some (error_frame e)) t k shadow calm = inl refl
  on_frame-files w jail (some (heartbeat hb)) t k shadow calm = inl refl
  on_frame-files w jail (some (other_payload bytes)) t k shadow calm = inl refl
  on_frame-files w jail (some (exec_command cmd)) t k shadow calm =
      inl (run_exec-files w jail cmd t k calm)
  on_frame-files w jail (some (ServerPayload.apply_patch patch)) t k shadow calm =
      elim (run_patch-files w jail patch t k shadow) [
        | inl same ↦ inl same
        | inr found ↦ inr (patch.file_path, refl, found)
      ]

  run_turn-files :
      (jail : WorkspaceJail fs) (arrivals : List Arrival) (t : TurnState c s fs) (k : Text)
      → IsApart k arrivals
      → IsJailed
          (λ path. IsAmong path arrivals)
          jail
          k
          t.files
          (run_turn c s fs jail arrivals t).1.files
  unfolding run_turn
  run_turn-files jail [] t k apart = inl refl
  run_turn-files jail (closed ∷ arrivals) t k apart = inl refl
  run_turn-files jail (silent ∷ arrivals) t k apart = inl refl
  run_turn-files jail (arrives payload w ∷ arrivals) t k (shadow, calm, apart) =
      elim (on_frame-files w jail payload t k shadow calm) [
        | inr (path, is_for, found) ↦ inr (path, inl is_for, found)
        | inl same ↦ elim (run_turn-cases jail payload w arrivals t) [
          | inl (e, f) ↦ inl (ap (λ r. lookup k r.1.files) f ∙ same)
          | inr (inl (last, f)) ↦ inl (ap (λ r. lookup k r.1.files) f ∙ same)
          | inr (inr (more, f)) ↦
              elim (run_turn-files jail arrivals (on_frame c s fs w jail payload t).1 k apart) [
                | inl rest ↦ inl (ap (λ r. lookup k r.1.files) f ∙ rest ∙ same)
                | inr (path, among, found) ↦ inr (path, inr among, found)
              ]
        ]
      ]

  -- A file that a turn changes, other than the shadow files of its patches and what its commands
  -- change themselves, is one that the jail of the workspace resolved the path of one of its patches
  -- to, and is inside of it.
  pub execute_turn_via_tunnel-contained :
      (req : ChatRequest) (b : Start c s fs) (workspace : fs.PathBuf) (arrivals : List Arrival)
      (files : Files) (r : Result (TurnError c s fs) ChatResponse) (t : TurnState c s fs) (k : Text)
      → IsApart k arrivals
      → execute_turn_via_tunnel c s fs req b workspace arrivals files ≡ (r, some t)
      → (lookup k t.files ≡ lookup k files)
        ⊎ ((jail : WorkspaceJail fs) × (with_allowed_paths fs workspace [] ≡ ok jail)
            × ((path : Text) × IsAmong path arrivals × IsResolved jail path k))
  unfolding execute_turn_via_tunnel
  execute_turn_via_tunnel-contained req b workspace arrivals files r t k apart h =
      elim (Result-cases (begin_turn c s fs b workspace files)) [
        | inr (e, f) ↦ absurd (ground (arith, f))
        | inl ((jail, t0), f) ↦
            let (made, from, tools, sent, opened) = begin_turn-ok b workspace files jail t0 f in
            let ends : (run_turn c s fs jail arrivals t0).1 ≡ t = ground (arith, f) in
            elim (run_turn-files jail arrivals t0 k apart) [
              | inl same ↦ inl (ap (λ x. lookup k x.files) (sym ends) ∙ same ∙ ap (lookup k) from)
              | inr inside ↦ inr (jail, made, inside)
            ]
      ]
