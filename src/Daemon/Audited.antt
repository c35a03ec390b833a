-- ===== src/Daemon/Audited.antt =====
-- syntropy-daemon/src/orchestrator.rs: the patches and the commands of the server, the jail and the
-- ledger.
use syntropy.Prelude.{
  ℕ, refl, ◌∙◌, none, some, insert, Option-cases, ◌≡◌, ◌⊎◌, inl, inr, sym, true, false, Text, lit,
  text_eq, text_eq_iff, lookup, ok, Result-cases, Bool-cases, arith,
}
use syntropy.Security.Crypto.{Crypto}
use syntropy.Security.Ledger.Database.{AuditEntry, Sqlite}
use syntropy.Security.Ledger.{append}
use syntropy.Exec.Jail.{FileSystem, resolve_path, validate_cwd, is_contained, normalize_path_prefix}
use syntropy.Exec.Jail.Containment.{resolve_path-contained, validate_cwd-contained}
use syntropy.Exec.Screens.{SpawnOptions, spawned}
use syntropy.Exec.Screens.Table.{
  Screens, Started, started, no_terminal, not_spawned, no_thread, check_free, start, spawn_screen,
}
use syntropy.Exec.Diff.Parser.{apply_patch}
use syntropy.Tunnel.Frames.{ExecCommand, ApplyPatch}
use syntropy.Exec.Diff.Parser.Others.{apply_patch_others}
use syntropy.Daemon.{
  Outside, Orchestrator, Machine, audit, screen_of, spawn_options, cwd_of, run_command,
  handle_exec_command, run_patch, handle_apply_patch, options_of,
}

pair_eq : {A B : Type 0} {a a' : A} {b b' : B} → a ≡ a' → b ≡ b' → ◌≡◌ {A = A × B} (a, b) (a', b')
pair_eq e f = cc

module _ (c : Crypto) (s : Sqlite) (fs : FileSystem) where
  -- The entry of an action is in the ledger, and the database is what the ledger made of it.
  abbrev pub IsAudited :
      Orchestrator c s fs → Outside fs → Text → Text → Machine c s fs → Machine c s fs → Type 0
  IsAudited o w action_type payload m m' =
      (entry : AuditEntry) × (append c s m.poisoned m.db w.timestamp o.agent_id action_type payload
        ≡ (ok entry, m'.db))

  run_patch-others :
      (o : Orchestrator c s fs) (w : Outside fs) (patch : ApplyPatch) (m : Machine c s fs)
      (k : Text)
      → text_eq w.surroundings.shadow_path k ≡ false
      → (lookup k (run_patch c s fs o w patch m).files ≡ lookup k m.files)
        ⊎ ((p : fs.PathBuf) × (resolve_path o.jail (fs.of_text patch.file_path) ≡ ok p)
            × (k ≡ fs.to_text p))
  unfolding run_patch
  run_patch-others o w patch m k shadow =
      elim (Result-cases (resolve_path o.jail (fs.of_text patch.file_path))) [
        | inr (e, f) ↦ inl (ground (arith, f))
        | inl (p, f) ↦
            let path = fs.to_text p in
            let after = apply_patch c patch.diff w.surroundings path (options_of patch) m.files in
            elim (Bool-cases (text_eq path k)) [
              | inl t ↦ inr (p, f, sym ((text_eq_iff path k).0 t))
              | inr g ↦
                  let others =
                    apply_patch_others c patch.diff w.surroundings path k (options_of patch) m.files
                      g shadow in
                  elim (Result-cases after.0) [
                    | inl (r, x) ↦ inl (ground (arith, f, x, others))
                    | inr (e, x) ↦ inl (ground (arith, f, x, others))
                  ]
            ]
      ]

  pub run_patch-db :
      (o : Orchestrator c s fs) (w : Outside fs) (patch : ApplyPatch) (m : Machine c s fs)
      → (run_patch c s fs o w patch m).db ≡ m.db
  unfolding run_patch
  run_patch-db o w patch m =
      elim (Result-cases (resolve_path o.jail (fs.of_text patch.file_path))) [
        | inr (e, f) ↦ ground (arith, f)
        | inl (p, f) ↦
            let after =
              apply_patch c patch.diff w.surroundings (fs.to_text p) (options_of patch) m.files in
            elim (Result-cases after.0) [
              | inl (r, x) ↦ ground (arith, f, x)
              | inr (e, x) ↦ ground (arith, f, x)
            ]
      ]

  -- A file that a patch of the server changes, other than the shadow file of its commit, is the
  -- one that the jail resolved the path of the patch to, which is inside the workspace or an allowed
  -- path, and the patch is in the ledger.
  pub handle_apply_patch-IsAudited :
      (o : Orchestrator c s fs) (w : Outside fs) (patch : ApplyPatch) (m : Machine c s fs)
      (k : Text)
      → text_eq w.surroundings.shadow_path k ≡ false
      → let m' = handle_apply_patch c s fs o w patch m in
        (lookup k m'.files ≡ lookup k m.files)
        ⊎ (IsAudited o w (lit "apply_patch") patch.diff m m'
            × ((p : fs.PathBuf) × (resolve_path o.jail (fs.of_text patch.file_path) ≡ ok p)
                × (is_contained o.jail p ≡ true)
                × (k ≡ fs.to_text p)))
  unfolding handle_apply_patch
  handle_apply_patch-IsAudited o w patch m k shadow =
      let logged = audit c s fs o w (lit "apply_patch") patch.diff m in
      let m1 = record m { db = logged.1 } in
      elim (Result-cases logged.0) [
        | inr (e, f) ↦ inl (ground (arith, f))
        | inl (entry, f) ↦
            let ran : handle_apply_patch c s fs o w patch m ≡ run_patch c s fs o w patch m1 =
              ground (arith, f) in
            rw ran (elim (run_patch-others o w patch m1 k shadow) [
              | inl same ↦ inl same
              | inr (p, found, at) ↦ inr (
                (entry, pair_eq f (sym (run_patch-db o w patch m1))),
                (p, found, resolve_path-contained o.jail (fs.of_text patch.file_path) p found, at),
              )
            ])
      ]

  -- A command in a directory that the jail resolved.
  pub run_command-ok :
      (o : Orchestrator c s fs) (w : Outside fs) (cmd : ExecCommand) (m : Machine c s fs)
      (dir : fs.PathBuf)
      → validate_cwd o.jail (cwd_of c s fs cmd) ≡ ok dir
      → ((run_command c s fs o w cmd m).db ≡ m.db)
        × ((run_command c s fs o w cmd m).screens
            ≡ (spawn_screen
                (screen_of c s fs o cmd)
                (spawn_options c s fs w cmd dir)
                w.now
                w.spawned_as
                m.screens).1)
  unfolding run_command
  run_command-ok o w cmd m dir g =
      let started =
        spawn_screen (screen_of c s fs o cmd) (spawn_options c s fs w cmd dir) w.now w.spawned_as
          m.screens in
      elim (Result-cases started.0) [
        | inl (u, x) ↦ (ground (arith, g, x), ground (arith, g, x))
        | inr (e, x) ↦ (ground (arith, g, x), ground (arith, g, x))
      ]

  -- What a call of `spawn_screen` makes of the table.
  spawn_screen-cases :
      (id : Text) (opts : SpawnOptions) (now : ℕ) (outcome : Started) (screens : Screens)
      → ((spawn_screen id opts now outcome screens).1 ≡ screens)
        ⊎ ((lookup id screens ≡ none)
            × ((spawn_screen id opts now outcome screens).1
                ≡ insert id (spawned id opts now) screens))
  unfolding spawn_screen check_free start
  spawn_screen-cases id opts now outcome screens = elim (Option-cases (lookup id screens)) [
    | inr (s, e) ↦ inl (ground (arith, e))
    | inl e ↦ elim (started_as outcome) [
      | inl same ↦ inl (ground (arith, e, same))
      | inr new ↦ inr (e, ground (arith, e, new))
    ]
  ]
    where
      started_as :
          (outcome : Started)
          → ((start id opts now outcome screens).1 ≡ screens)
            ⊎ ((start id opts now outcome screens).1 ≡ insert id (spawned id opts now) screens)
      started_as started = inr refl
      started_as (no_terminal e) = inl refl
      started_as (not_spawned e) = inl refl
      started_as (no_thread e) = inr refl

  -- A command of the server changes the table of the screens only by a new screen, under a name that
  -- was free: it runs the program and the arguments of the command in the directory that the jail
  -- accepted, which is inside of it, and the command is in the ledger.
  pub handle_exec_command-IsAudited :
      (o : Orchestrator c s fs) (w : Outside fs) (cmd : ExecCommand) (m : Machine c s fs)
      → let m' = handle_exec_command c s fs o w cmd m in
        (m'.screens ≡ m.screens)
        ⊎ (IsAudited o w (lit "exec_command") (w.exec_json cmd) m m'
            × ((dir : fs.PathBuf) × (validate_cwd o.jail (cwd_of c s fs cmd) ≡ ok dir)
                × ((q : fs.PathBuf) × (dir ≡ normalize_path_prefix fs q)
                    × (is_contained o.jail q ≡ true))
                × ((opts : SpawnOptions) × (opts.cwd ≡ some (fs.to_text dir))
                    × (opts.command ≡ cmd.command)
                    × (opts.args ≡ cmd.args)
                    × (lookup (screen_of c s fs o cmd) m.screens ≡ none)
                    × (m'.screens
                        ≡ insert
                            (screen_of c s fs o cmd)
                            (spawned (screen_of c s fs o cmd) opts w.now)
                            m.screens))))
  unfolding handle_exec_command run_command spawn_options
  handle_exec_command-IsAudited o w cmd m =
      let logged = audit c s fs o w (lit "exec_command") (w.exec_json cmd) m in
      let m1 = record m { db = logged.1 } in
      elim (Result-cases logged.0) [
        | inr (e, f) ↦ inl (ground (arith, f))
        | inl (entry, f) ↦
            let ran : handle_exec_command c s fs o w cmd m ≡ run_command c s fs o w cmd m1 =
              ground (arith, f) in
            rw ran (elim (Result-cases (validate_cwd o.jail (cwd_of c s fs cmd))) [
              | inr (e, g) ↦ inl (ground (arith, g))
              | inl (dir, g) ↦
                  let (db, screens) = run_command-ok o w cmd m1 dir g in
                  let opts = spawn_options c s fs w cmd dir in
                  elim (spawn_screen-cases (screen_of c s fs o cmd) opts w.now w.spawned_as
                    m.screens) [
                      | inl same ↦ inl (screens ∙ same)
                      | inr (free, new) ↦
                          let (q, from, contained, kind) =
                            validate_cwd-contained o.jail (cwd_of c s fs cmd) dir g in
                          inr (
                            (entry, pair_eq f (sym db)),
                            (
                              dir,
                              g,
                              (q, from, contained),
                              (opts, refl, refl, refl, free, screens ∙ new),
                            ),
                          )
                    ]
            ])
      ]
