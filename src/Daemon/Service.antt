-- ===== src/Daemon/Service.antt =====
-- syntropy-daemon/src/service.rs: the frames of the server, each handled by a task of its own. The
-- tasks may run in any order; a run is the list of the frames in the order in which they do.
use syntropy.Prelude.{
  ◌≡◌, sym, ap, ◌∙◌, inl, inr, ok, err, none, some, Option, List, [], ◌∷◌, ◌++◌, append-nil,
  append_assoc, Text, lit, Result-cases, arith,
}
use syntropy.Security.Crypto.{Crypto}
use syntropy.Security.Ledger.Database.{Sqlite, AuditEntry, pos}
use syntropy.Security.Ledger.{genesis_hash}
use syntropy.Security.Ledger.Chain.{IsChained}
use syntropy.Security.Ledger.Integrity.{append-IsChained, append-err}
use syntropy.Exec.Jail.{FileSystem, validate_cwd}
use syntropy.Tunnel.Frames.{
  ExecCommand, ApplyPatch, Request, exec_request, terminal_input, patch_request, mcp_request,
  approval_request, heartbeat_request, other_request, McpInvokeRequest, TerminalInputChunk,
}
use syntropy.Daemon.{
  Outside, Orchestrator, Machine, audit, cwd_of, run_command, handle_exec_command,
  handle_apply_patch, handle_mcp_request, handle_terminal_input, handle_approval_request,
  handle_frame,
}
use syntropy.Daemon.Audited.{run_patch-db, run_command-ok}

module _ (c : Crypto) (s : Sqlite) (fs : FileSystem) where
  -- The tasks, one frame after the other, each with what it meets outside.
  unfoldable pub serve :
      Orchestrator c s fs → List (Outside fs × Option Request) → Machine c s fs → Machine c s fs
  unfolding handle_frame
  serve o [] m = m
  serve o ((w, frame) ∷ frames) m = serve o frames (handle_frame c s fs o w frame m)

  -- Entries that a daemon makes.
  abbrev pub IsOf : Text → List AuditEntry → Type 0
  IsOf agent_id [] = Unit
  IsOf agent_id (e ∷ es) = (e.agent_id ≡ agent_id) × IsOf agent_id es

  abbrev pub IsGrown : Text → s.Db → s.Db → Type 0
  IsGrown agent_id db db' =
      IsChained c (pos 1) genesis_hash (s.rows db')
      × ((more : List AuditEntry) × (s.rows db' ≡ s.rows db ++ more) × IsOf agent_id more)

  IsOf-append :
      (agent_id : Text) (a b : List AuditEntry)
      → IsOf agent_id a
      → IsOf agent_id b
      → IsOf agent_id (a ++ b)
  IsOf-append agent_id [] b h k = k
  IsOf-append agent_id (e ∷ a) b (g, h) k = (g, IsOf-append agent_id a b h k)

  IsGrown-same :
      (agent_id : Text) (db : s.Db)
      → IsChained c (pos 1) genesis_hash (s.rows db)
      → IsGrown agent_id db db
  IsGrown-same agent_id db h = (h, ([], sym (append-nil (s.rows db)), tt))

  IsGrown-trans :
      (agent_id : Text) (db db' db'' : s.Db)
      → IsGrown agent_id db db'
      → IsGrown agent_id db' db''
      → IsGrown agent_id db db''
  IsGrown-trans agent_id db db' db'' (h, (more, e, own)) (h', (more', e', own')) = (
    h',
    (
      more ++ more',
      e' ∙ ap (λ r. r ++ more') e ∙ append_assoc (s.rows db) more more',
      IsOf-append agent_id more more' own own',
    ),
  )

  audit-IsGrown :
      (o : Orchestrator c s fs) (w : Outside fs) (action_type payload : Text) (m : Machine c s fs)
      → IsChained c (pos 1) genesis_hash (s.rows m.db)
      → IsGrown o.agent_id m.db (audit c s fs o w action_type payload m).1
  audit-IsGrown o w action_type payload m h =
      let logged = audit c s fs o w action_type payload m in
      let pair : (r : _) → logged.0 ≡ r → logged ≡ (r, logged.1) = λ r e. cc in
      elim (Result-cases logged.0) [
        | inl (e, f) ↦
            let (rows, chained, agent, hash, action) =
              append-IsChained c s m.poisoned m.db logged.1 w.timestamp o.agent_id action_type
                payload e (pair (ok e) f) h in
            (chained, (e ∷ [], rows, (agent, tt)))
        | inr (x, f) ↦
            let same =
              append-err c s m.poisoned m.db logged.1 w.timestamp o.agent_id action_type payload x
                (pair (err x) f) in
            rw same (IsGrown-same o.agent_id m.db h)
      ]

  run_command-db :
      (o : Orchestrator c s fs) (w : Outside fs) (cmd : ExecCommand) (m : Machine c s fs)
      → (run_command c s fs o w cmd m).db ≡ m.db
  unfolding run_command
  run_command-db o w cmd m = elim (Result-cases (validate_cwd o.jail (cwd_of c s fs cmd))) [
    | inr (e, g) ↦ ground (arith, g)
    | inl (dir, g) ↦ (run_command-ok c s fs o w cmd m dir g).0
  ]

  handle_exec_command-db :
      (o : Orchestrator c s fs) (w : Outside fs) (cmd : ExecCommand) (m : Machine c s fs)
      → (handle_exec_command c s fs o w cmd m).db
        ≡ (audit c s fs o w (lit "exec_command") (w.exec_json cmd) m).1
  unfolding handle_exec_command
  handle_exec_command-db o w cmd m =
      let logged = audit c s fs o w (lit "exec_command") (w.exec_json cmd) m in
      elim (Result-cases logged.0) [
        | inr (e, f) ↦ ground (arith, f)
        | inl (entry, f) ↦ ground (arith, f, run_command-db o w cmd (record m { db = logged.1 }))
      ]

  handle_apply_patch-db :
      (o : Orchestrator c s fs) (w : Outside fs) (patch : ApplyPatch) (m : Machine c s fs)
      → (handle_apply_patch c s fs o w patch m).db
        ≡ (audit c s fs o w (lit "apply_patch") patch.diff m).1
  unfolding handle_apply_patch
  handle_apply_patch-db o w patch m =
      let logged = audit c s fs o w (lit "apply_patch") patch.diff m in
      elim (Result-cases logged.0) [
        | inr (e, f) ↦ ground (arith, f)
        | inl (entry, f) ↦
            ground (arith, f, run_patch-db c s fs o w patch (record m { db = logged.1 }))
      ]

  handle_mcp_request-db :
      (o : Orchestrator c s fs) (w : Outside fs) (req : McpInvokeRequest) (m : Machine c s fs)
      → (handle_mcp_request c s fs o w req m).db
        ≡ (audit c s fs o w (lit "mcp_invoke") req.arguments_json m).1
  unfolding handle_mcp_request
  handle_mcp_request-db o w req m =
      let logged = audit c s fs o w (lit "mcp_invoke") req.arguments_json m in
      elim (Result-cases logged.0) [
        | inr (e, f) ↦ ground (arith, f)
        | inl (entry, f) ↦ ground (arith, f)
      ]

  handle_terminal_input-db :
      (w : Outside fs) (input : TerminalInputChunk) (m : Machine c s fs)
      → (handle_terminal_input c s fs w input m).db ≡ m.db
  unfolding handle_terminal_input
  handle_terminal_input-db w input m = ground arith

  handle_frame-IsGrown :
      (o : Orchestrator c s fs) (w : Outside fs) (frame : Option Request) (m : Machine c s fs)
      → IsChained c (pos 1) genesis_hash (s.rows m.db)
      → IsGrown o.agent_id m.db (handle_frame c s fs o w frame m).db
  unfolding handle_frame handle_approval_request
  handle_frame-IsGrown o w none m h = IsGrown-same o.agent_id m.db h
  handle_frame-IsGrown o w (some (exec_request cmd)) m h =
      rw (handle_exec_command-db o w cmd m)
        (audit-IsGrown o w (lit "exec_command") (w.exec_json cmd) m h)
  handle_frame-IsGrown o w (some (terminal_input input)) m h =
      rw (handle_terminal_input-db w input m) (IsGrown-same o.agent_id m.db h)
  handle_frame-IsGrown o w (some (patch_request patch)) m h =
      rw (handle_apply_patch-db o w patch m) (audit-IsGrown o w (lit "apply_patch") patch.diff m h)
  handle_frame-IsGrown o w (some (mcp_request req)) m h =
      rw (handle_mcp_request-db o w req m)
        (audit-IsGrown o w (lit "mcp_invoke") req.arguments_json m h)
  handle_frame-IsGrown o w (some (approval_request req)) m h = IsGrown-same o.agent_id m.db h
  handle_frame-IsGrown o w (some (heartbeat_request hb)) m h = IsGrown-same o.agent_id m.db h
  handle_frame-IsGrown o w (some (other_request bytes)) m h = IsGrown-same o.agent_id m.db h

  -- In whatever order a daemon handles the frames that it is sent, and whatever fails on the way, a
  -- chained ledger stays chained: its entries are the old ones and behind them entries with the
  -- agent id of the daemon.
  pub serve-IsChained :
      (o : Orchestrator c s fs) (frames : List (Outside fs × Option Request)) (m : Machine c s fs)
      → IsChained c (pos 1) genesis_hash (s.rows m.db)
      → IsGrown o.agent_id m.db (serve o frames m).db
  unfolding serve
  serve-IsChained o [] m h = IsGrown-same o.agent_id m.db h
  serve-IsChained o ((w, frame) ∷ frames) m h =
      let m' = handle_frame c s fs o w frame m in
      let grown = handle_frame-IsGrown o w frame m h in
      IsGrown-trans o.agent_id m.db m'.db (serve o frames m').db grown
        (serve-IsChained o frames m' grown.0)
