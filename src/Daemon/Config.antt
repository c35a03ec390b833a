-- ===== src/Daemon/Config.antt =====
-- syntropy-daemon/src/config.rs, and the options of syntropy-mcp/src/lib.rs: the configuration, its
-- defaults, and where it is read from.
use syntropy.Prelude.{
  ℕ, Bool, true, List, [], ◌∷◌, Text, lit, Result, ok, err, ◌>>=◌, if◌then◌else◌,
}
use syntropy.Exec.Jail.{FileSystem}

pub record ProjectConfig : Type 0 where
  pub name : Text
  pub version : Text
  pub root_jail : Bool
  pub allowed_paths : List Text

pub record DaemonConfig : Type 0 where
  pub server_url : Text
  pub heartbeat_interval_secs : ℕ
  pub reconnect_max_backoff_secs : ℕ

pub record PtySettings : Type 0 where
  pub default_shell : Text
  pub max_scrollback_lines : ℕ
  pub buffer_replay_limit : ℕ

pub record SecuritySettings : Type 0 where
  pub keystore_provider : Text
  pub approval_mode : Text
  pub audit_ledger : Bool
  pub audit_db_path : Text

pub record McpConfig : Type 0 where
  pub enabled : Bool
  pub allowlist : List Text
  pub command_timeout_secs : ℕ

pub record AppConfig : Type 0 where
  pub project : ProjectConfig
  pub daemon : DaemonConfig
  pub pty : PtySettings
  pub security : SecuritySettings
  pub mcp : McpConfig

-- The functions that `serde` takes for fields that are missing.
abbrev pub default_project_name : Text
default_project_name = lit "syntropy"

abbrev pub default_version : Text
default_version = lit "0.1.0"

abbrev pub default_allowed_paths : List Text
default_allowed_paths = lit "." ∷ []

abbrev pub default_server_url : Text
default_server_url = lit "http://127.0.0.1:50051"

abbrev pub default_heartbeat_interval : ℕ
default_heartbeat_interval = 10

abbrev pub default_reconnect_backoff : ℕ
default_reconnect_backoff = 30

abbrev pub default_shell : Text
default_shell = lit "default"

abbrev pub default_scrollback : ℕ
default_scrollback = 10000

abbrev pub default_replay_limit : ℕ
default_replay_limit = 500

abbrev pub default_keystore : Text
default_keystore = lit "auto"

abbrev pub default_approval_mode : Text
default_approval_mode = lit "dual"

abbrev pub default_audit_db : Text
default_audit_db = lit ".syntropy/audit.db"

abbrev pub default_project : ProjectConfig
default_project = record {
  name = default_project_name;
  version = default_version;
  root_jail = true;
  allowed_paths = default_allowed_paths;
}

abbrev pub default_daemon : DaemonConfig
default_daemon = record {
  server_url = default_server_url;
  heartbeat_interval_secs = default_heartbeat_interval;
  reconnect_max_backoff_secs = default_reconnect_backoff;
}

abbrev pub default_pty : PtySettings
default_pty = record {
  default_shell = default_shell;
  max_scrollback_lines = default_scrollback;
  buffer_replay_limit = default_replay_limit;
}

abbrev pub default_security : SecuritySettings
default_security = record {
  keystore_provider = default_keystore;
  approval_mode = default_approval_mode;
  audit_ledger = true;
  audit_db_path = default_audit_db;
}

abbrev pub default_allowlist : List Text
default_allowlist = lit "*" ∷ []

abbrev pub default_command_timeout_secs : ℕ
default_command_timeout_secs = 120

abbrev pub default_mcp : McpConfig
default_mcp = record {
  enabled = true;
  allowlist = default_allowlist;
  command_timeout_secs = default_command_timeout_secs;
}

abbrev pub default_config : AppConfig
default_config = record {
  project = default_project;
  daemon = default_daemon;
  pty = default_pty;
  security = default_security;
  mcp = default_mcp;
}

pub data ConfigError : Type 0 where
  config_io config_toml : Text → ConfigError

-- What loading meets: the file `.syntropy.toml` in the directory, what reading it gives, and the
-- parser of the crate `toml`.
pub record ConfigFile : Type 0 where
  pub file_exists : Bool
  pub content : Result Text Text
  pub parse : Text → Result Text AppConfig

-- `?` on the two calls.
abbrev read_content : Result Text Text → Result ConfigError Text
read_content (ok t) = ok t
read_content (err e) = err (config_io e)

abbrev parsed : Result Text AppConfig → Result ConfigError AppConfig
parsed (ok c) = ok c
parsed (err e) = err (config_toml e)

unfoldable pub load_from_dir : ConfigFile → Result ConfigError AppConfig
load_from_dir f =
    if f.file_exists
    then (read_content f.content >>= λ content. parsed (f.parse content))
    else ok default_config

module _ (fs : FileSystem) where
  unfoldable pub resolve_audit_path : AppConfig → fs.PathBuf → fs.PathBuf
  resolve_audit_path config workspace_root =
      let path = fs.of_text config.security.audit_db_path in
      if fs.is_relative path then fs.join workspace_root path else path
