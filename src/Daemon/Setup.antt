-- ===== src/Daemon/Setup.antt =====
-- syntropy-daemon/src/orchestrator.rs and service.rs: how the daemon is put together from its
-- configuration, outside Windows.
use syntropy.Prelude.{
  ℕ, ◌*◌, ◌≡◌, ap, ◌∙◌, true, false, Option, none, some, [], Text, Result, ok, err, ◌>>=◌, ◌>>◌,
  with_ok, guard, arith,
}
use syntropy.Security.Crypto.{Crypto}
use syntropy.Security.Ledger.Database.{LedgerError, Sqlite}
use syntropy.Exec.Jail.{
  FileSystem, WorkspaceJail, JailError, with_allowed_paths, from_io, canonical_all, is_contained,
  is_path_within, within_any, resolve_path,
}
use syntropy.Exec.Jail.Containment.{resolve_path-contained}
use syntropy.Exec.Diff.Commit.{Files}
use syntropy.Mcp.Allowlist.{is_allowed}
use syntropy.Tunnel.Client.{TunnelConfig}
use syntropy.Daemon.{Orchestrator, Machine}
use syntropy.Daemon.Config.{AppConfig, resolve_audit_path}

-- The options of the tunnel that `run` starts, in milliseconds; `backoff` is `mul_f64(1.5)`.
unfoldable pub tunnel_options : AppConfig → Text → (ℕ → ℕ) → TunnelConfig
tunnel_options config agent_id backoff = record {
  agent_id = agent_id;
  initial_reconnect_delay = 500;
  max_reconnect_delay = config.daemon.reconnect_max_backoff_secs * 1000;
  backoff = backoff;
  max_reconnect_attempts = none;
  heartbeat_interval = some (config.daemon.heartbeat_interval_secs * 1000);
}

module _ {fs : FileSystem} where
  from_io-ok : {A : Type 0} (r : Result Text A) (a : A) → from_io fs r ≡ ok a → r ≡ ok a
  from_io-ok (ok b) a h = ground (arith, h)
  from_io-ok (err e) a h = absurd (ground (arith, h))

  -- The jail of a directory without further paths allows nothing but the directory.
  with_allowed_paths-none :
      (root : fs.PathBuf) (jail : WorkspaceJail fs)
      → with_allowed_paths fs root [] ≡ ok jail
      → (jail.canonical_allowed_paths ≡ []) × (fs.canonicalize root ≡ ok jail.canonical_root)
  unfolding with_allowed_paths canonical_all
  with_allowed_paths-none root jail h = with_ok (guard (fs.exists root) _) _ h λ u h0 k0.
      with_ok (guard (fs.is_dir root) _) _ k0 λ v h1 k1.
        with_ok (from_io fs (fs.canonicalize root)) _ k1 λ r h2 k2.
          let same : r ≡ jail.canonical_root = ground (arith, k2) in
          (ground (arith, k2), from_io-ok (fs.canonicalize root) r h2 ∙ ap ok same)

  contained_in_root :
      (jail : WorkspaceJail fs) (p : fs.PathBuf)
      → jail.canonical_allowed_paths ≡ []
      → is_contained jail p ≡ true
      → is_path_within fs jail.canonical_root p ≡ true
  unfolding is_contained within_any
  contained_in_root jail p none_allowed h = ground (arith, none_allowed, h)

module _ (c : Crypto) (s : Sqlite) (fs : FileSystem) where
  pub data SetupError : Type 0 where
    setup_jail : JailError fs → SetupError
    setup_io : Text → SetupError
    setup_ledger : LedgerError → SetupError

  -- What the set-up meets: whether a directory can be made, and the ledger at a path.
  pub record Host : Type 0 where
    pub create_dir_all : fs.PathBuf → Result Text (Unit {0})
    pub open_ledger : fs.PathBuf → Result LedgerError s.Db
    pub files : Files

  -- `?` on the calls.
  abbrev jailed : Result (JailError fs) (WorkspaceJail fs) → Result SetupError (WorkspaceJail fs)
  jailed (ok jail) = ok jail
  jailed (err e) = err (setup_jail e)

  abbrev made_dir : Result Text (Unit {0}) → Result SetupError (Unit {0})
  made_dir (ok u) = ok tt
  made_dir (err e) = err (setup_io e)

  abbrev opened : Result LedgerError s.Db → Result SetupError s.Db
  opened (ok db) = ok db
  opened (err e) = err (setup_ledger e)

  abbrev parent_made : Host → Option fs.PathBuf → Result SetupError (Unit {0})
  parent_made h none = ok tt
  parent_made h (some parent) = made_dir (h.create_dir_all parent)

  -- `Orchestrator::new`, with what the orchestrator acts on.
  unfoldable pub new_orchestrator :
      Text
      → fs.PathBuf
      → AppConfig
      → Host
      → Result SetupError (Orchestrator c s fs × Machine c s fs)
  unfolding with_allowed_paths resolve_audit_path
  new_orchestrator agent_id workspace_root config h = do
    jail ← jailed (with_allowed_paths fs workspace_root [])
    let audit_path = resolve_audit_path fs config workspace_root
    parent_made h (fs.parent audit_path)
    db ← opened (h.open_ledger audit_path)
    ok (
      record { agent_id = agent_id; jail = jail; allowlist = config.mcp.allowlist },
      record { poisoned = false; db = db; files = h.files; screens = []; replies = [] },
    )

  jailed-ok :
      (r : Result (JailError fs) (WorkspaceJail fs)) (jail : WorkspaceJail fs)
      → jailed r ≡ ok jail
      → r ≡ ok jail
  jailed-ok (ok a) jail h = ground (arith, h)
  jailed-ok (err e) jail h = absurd (ground (arith, h))

  -- What an orchestrator has that was made.
  new_orchestrator-ok :
      (agent_id : Text) (root : fs.PathBuf) (config : AppConfig) (h : Host)
      (o : Orchestrator c s fs) (m : Machine c s fs)
      → new_orchestrator agent_id root config h ≡ ok (o, m)
      → (with_allowed_paths fs root [] ≡ ok o.jail) × (o.allowlist ≡ config.mcp.allowlist)
  unfolding new_orchestrator
  new_orchestrator-ok agent_id root config h o m e =
      with_ok (jailed (with_allowed_paths fs root [])) _ e λ jail h0 k0.
        with_ok (parent_made h (fs.parent (resolve_audit_path fs config root))) _ k0 λ u h1 k1.
          with_ok (opened (h.open_ledger (resolve_audit_path fs config root))) _ k1 λ db h2 k2.
            let same : jail ≡ o.jail = ground (arith, k2) in
            (jailed-ok (with_allowed_paths fs root []) jail h0 ∙ ap ok same, ground (arith, k2))

-- Whatever the configuration says, a path that the jail of a new orchestrator resolves is the
-- canonical workspace or below it; and the tools that it allows are those of the configuration.
pub new_orchestrator_confined :
    {c : Crypto} {s : Sqlite} {fs : FileSystem} (agent_id : Text) (root p q : fs.PathBuf)
    (config : AppConfig) (h : Host c s fs) (o : Orchestrator c s fs) (m : Machine c s fs)
    → new_orchestrator c s fs agent_id root config h ≡ ok (o, m)
    → resolve_path o.jail p ≡ ok q
    → ((canonical : fs.PathBuf) × (fs.canonicalize root ≡ ok canonical)
        × (is_path_within fs canonical q ≡ true))
      × ((tool : Text) → is_allowed o.allowlist tool ≡ is_allowed config.mcp.allowlist tool)
new_orchestrator_confined {c} {s} {fs} agent_id root p q config h o m made found =
    let (jail, tools) = new_orchestrator-ok c s fs agent_id root config h o m made in
    let (none_allowed, canonical) = with_allowed_paths-none root o.jail jail in
    (
      (
        o.jail.canonical_root,
        canonical,
        contained_in_root o.jail q none_allowed (resolve_path-contained o.jail p q found),
      ),
      (λ tool. ap (λ a. is_allowed a tool) tools),
    )
