-- ===== src/Cli/Turn/Recorded.antt =====
-- syntropy-cli/src/ui.rs: what a turn reports and its ledger.
use syntropy.Prelude.{
  ok-injective, ◌≡◌, inl, inr, refl, sym, ap, ◌∙◌, false, true, Bool, Option, none, some, List, [],
  ◌∷◌, ◌++◌, map, append-nil, append_assoc, Text, lit, text_eq, ok, if◌then◌else◌, arith,
}
use mathlib.Core.List.{map-append}
use syntropy.Security.Crypto.{Crypto}
use syntropy.Security.Ledger.Database.{Sqlite, AuditEntry, pos}
use syntropy.Security.Ledger.{genesis_hash, hash_payload}
use syntropy.Security.Ledger.Chain.{IsChained}
use syntropy.Security.Ledger.Integrity.{append-IsChained}
use syntropy.Exec.Diff.Commit.{Files}
use syntropy.Exec.Jail.{FileSystem, WorkspaceJail}
use syntropy.Tunnel.Frames.{
  ExecCommand, ApplyPatch, ServerPayload, exec_command, error_frame, agent_message, heartbeat,
  other_payload, Reply, terminal_output, patch_result, mcp_response, approval_response,
  heartbeat_ack,
}
use syntropy.Cli.Turn.{
  ChatRequest, ChatResponse, Start, execute_turn_via_tunnel, Outside, Arrival, arrives, closed,
  silent, TurnState, on_frame, run_exec, run_patch, run_turn, serve, receive, full_output,
  record_action, ui_agent,
}
use syntropy.Cli.Turn.Steps.{
  run_exec-cases, report_command-cases, run_patch-cases, run_turn-cases, begin_turn-ok,
  execute_turn_via_tunnel-ok,
}

-- The action of an entry, with the hash of its payload if it is a command.
abbrev pub action_of : AuditEntry → Text × Text
action_of e =
    (e.action_type, if text_eq e.action_type (lit "exec_command") then e.payload_hash else [])

-- The actions that were done where these frames were sent: a command with the hash of its output,
-- and a patch that succeeded.
abbrev pub actions_of : Crypto → List Reply → List (Text × Text)
actions_of c [] = []
actions_of c (terminal_output chunk ∷ sent) =
    (lit "exec_command", hash_payload c chunk.bytes) ∷ actions_of c sent
actions_of c (patch_result r ∷ sent) =
    (if r.success then (lit "apply_patch", []) ∷ [] else []) ++ actions_of c sent
actions_of c (mcp_response r ∷ sent) = actions_of c sent
actions_of c (approval_response r ∷ sent) = actions_of c sent
actions_of c (heartbeat_ack hb ∷ sent) = actions_of c sent

actions_of-append :
    (c : Crypto) (a b : List Reply) → actions_of c (a ++ b) ≡ actions_of c a ++ actions_of c b
actions_of-append c [] b = refl
actions_of-append c (terminal_output chunk ∷ a) b = rw (actions_of-append c a b) refl
actions_of-append c (patch_result r ∷ a) b = simp (actions_of-append c a b, append_assoc)
actions_of-append c (mcp_response r ∷ a) b = actions_of-append c a b
actions_of-append c (approval_response r ∷ a) b = actions_of-append c a b
actions_of-append c (heartbeat_ack hb ∷ a) b = actions_of-append c a b

action_of-command :
    (e : AuditEntry) (h : Text)
    → e.action_type ≡ lit "exec_command"
    → e.payload_hash ≡ h
    → action_of e ≡ (lit "exec_command", h)
unfolding text_eq
action_of-command e h p q = rw (p, q) refl

action_of-patch :
    (e : AuditEntry) → e.action_type ≡ lit "apply_patch" → action_of e ≡ (lit "apply_patch", [])
unfolding text_eq
action_of-patch e p = rw p refl

module _ {c : Crypto} {s : Sqlite} {fs : FileSystem} where
  -- The frames that were sent from one state to the other are matched by new rows of the ledger,
  -- which is a chain.
  abbrev pub IsRecorded : TurnState c s fs → TurnState c s fs → Type 0
  IsRecorded t t' =
      (news : List AuditEntry) × (replies : List Reply) × (s.rows t'.db ≡ s.rows t.db ++ news)
      × (t'.sent ≡ t.sent ++ replies)
      × (map action_of news ≡ actions_of c replies)
      × IsChained c (pos 1) genesis_hash (s.rows t'.db)

  IsRecorded-same :
      (t t' : TurnState c s fs)
      → IsChained c (pos 1) genesis_hash (s.rows t.db)
      → t'.db ≡ t.db
      → t'.sent ≡ t.sent
      → IsRecorded t t'
  IsRecorded-same t t' chained db sent = (
    [],
    [],
    ap s.rows db ∙ sym (append-nil (s.rows t.db)),
    sent ∙ sym (append-nil t.sent),
    refl,
    rw db chained,
  )

  IsRecorded-trans :
      (t t' t'' : TurnState c s fs) → IsRecorded t t' → IsRecorded t' t'' → IsRecorded t t''
  IsRecorded-trans t t' t'' (n1, r1, rows1, sent1, same1, k1) (n2, r2, rows2, sent2, same2, k2) = (
    n1 ++ n2,
    r1 ++ r2,
    rows2 ∙ ap (λ x. x ++ n2) rows1 ∙ append_assoc (s.rows t.db) n1 n2,
    sent2 ∙ ap (λ x. x ++ r2) sent1 ∙ append_assoc t.sent r1 r2,
    rw (map-append, actions_of-append, same1, same2) refl,
    k2,
  )

  -- An entry that the turn's ledger made stands behind the old rows.
  record_action-row :
      (w : Outside) (action_type payload : Text) (t : TurnState c s fs) (entry : AuditEntry)
      → IsChained c (pos 1) genesis_hash (s.rows t.db)
      → (record_action c s fs w action_type payload t).0 ≡ ok entry
      → (s.rows (record_action c s fs w action_type payload t).1 ≡ s.rows t.db ++ entry ∷ [])
        × IsChained c (pos 1) genesis_hash (s.rows (record_action c s fs w action_type payload t).1)
        × (entry.agent_id ≡ ui_agent)
        × (entry.payload_hash ≡ hash_payload c payload)
        × (entry.action_type ≡ action_type)
  record_action-row w action_type payload t entry chained h =
      append-IsChained c s false t.db (record_action c s fs w action_type payload t).1 w.timestamp
        ui_agent action_type payload entry
        (λ i. (h i, (record_action c s fs w action_type payload t).1)) chained

  run_exec-IsRecorded :
      (w : Outside) (jail : WorkspaceJail fs) (cmd : ExecCommand) (t : TurnState c s fs) (b : Bool)
      → IsChained c (pos 1) genesis_hash (s.rows t.db)
      → (run_exec c s fs w jail cmd t).0 ≡ ok b
      → IsRecorded t (run_exec c s fs w jail cmd t).1
  run_exec-IsRecorded w jail cmd t b chained h = elim (run_exec-cases w jail cmd t) [
    | inl (e, screens, files, from, f) ↦ absurd (ground (arith, ap (λ r. r.0) f, h))
    | inr (dir, started, spawned, f) ↦
        let output = full_output (receive w.received (serve w.events started)) in
        elim (report_command-cases w cmd output
          (record t { screens = serve w.events started; files = w.effects t.files })) [
            | inl (e, g) ↦ absurd (ground (arith, ap (λ r. r.0) (f ∙ g), h))
            | inr (entry, logged, g) ↦
                let (rows, links, agent, payload, action) =
                  record_action-row w (lit "exec_command") output t entry chained logged in
                rw (f ∙ g) (
                  entry ∷ [],
                  terminal_output _ ∷ [],
                  rows,
                  refl,
                  rw (action_of-command entry (hash_payload c output) action payload) refl,
                  links,
                )
          ]
  ]

  run_patch-IsRecorded :
      (w : Outside) (jail : WorkspaceJail fs) (patch : ApplyPatch) (t : TurnState c s fs) (b : Bool)
      → IsChained c (pos 1) genesis_hash (s.rows t.db)
      → (run_patch c s fs w jail patch t).0 ≡ ok b
      → IsRecorded t (run_patch c s fs w jail patch t).1
  run_patch-IsRecorded w jail patch t b chained h = elim (run_patch-cases w jail patch t) [
    | inl (e, f) ↦ absurd (ground (arith, ap (λ r. r.0) f, h))
    | inr (p, found, inl (m, f)) ↦
        rw f ([], patch_result _ ∷ [], sym (append-nil (s.rows t.db)), refl, refl, chained)
    | inr (p, found, inr (inl (e, f))) ↦ absurd (ground (arith, ap (λ r. r.0) f, h))
    | inr (p, found, inr (inr (entry, r, logged, f))) ↦
        let (rows, links, agent, payload, action) =
          record_action-row w (lit "apply_patch") patch.diff t entry chained logged in
        rw f (
          entry ∷ [],
          patch_result _ ∷ [],
          rows,
          refl,
          rw (action_of-patch entry action) refl,
          links,
        )
  ]

  on_frame-IsRecorded :
      (w : Outside) (jail : WorkspaceJail fs) (payload : Option ServerPayload)
      (t : TurnState c s fs) (b : Bool)
      → IsChained c (pos 1) genesis_hash (s.rows t.db)
      → (on_frame c s fs w jail payload t).0 ≡ ok b
      → IsRecorded t (on_frame c s fs w jail payload t).1
  unfolding on_frame
  on_frame-IsRecorded w jail none t b chained h = IsRecorded-same t t chained refl refl
  on_frame-IsRecorded w jail (some (agent_message msg)) t b chained h =
      IsRecorded-same t (record t { agent_message = msg.content; tool_calls = msg.tool_calls })
        chained refl refl
  on_frame-IsRecorded w jail (some (error_frame e)) t b chained h = absurd (ground arith)
  on_frame-IsRecorded w jail (some (heartbeat hb)) t b chained h =
      IsRecorded-same t t chained refl refl
  on_frame-IsRecorded w jail (some (other_payload bytes)) t b chained h =
      IsRecorded-same t t chained refl refl
  on_frame-IsRecorded w jail (some (exec_command cmd)) t b chained h =
      run_exec-IsRecorded w jail cmd t b chained h
  on_frame-IsRecorded w jail (some (ServerPayload.apply_patch patch)) t b chained h =
      run_patch-IsRecorded w jail patch t b chained h

  run_turn-IsRecorded :
      (jail : WorkspaceJail fs) (arrivals : List Arrival) (t t' : TurnState c s fs)
      → IsChained c (pos 1) genesis_hash (s.rows t.db)
      → run_turn c s fs jail arrivals t ≡ (ok tt, t')
      → IsRecorded t t'
  unfolding run_turn
  run_turn-IsRecorded jail [] t t' chained h =
      rw (← ap (λ r. r.1) h) (IsRecorded-same t t chained refl refl)
  run_turn-IsRecorded jail (closed ∷ arrivals) t t' chained h =
      rw (← ap (λ r. r.1) h) (IsRecorded-same t t chained refl refl)
  run_turn-IsRecorded jail (silent ∷ arrivals) t t' chained h =
      rw (← ap (λ r. r.1) h) (IsRecorded-same t t chained refl refl)
  run_turn-IsRecorded jail (arrives payload w ∷ arrivals) t t' chained h =
      elim (run_turn-cases jail payload w arrivals t) [
        | inl (e, f) ↦ absurd (ground (arith, ap (λ r. r.0) f, ap (λ r. r.0) h))
        | inr (inl (last, f)) ↦
            rw (← ap (λ r. r.1) h, f) (on_frame-IsRecorded w jail payload t true chained last)
        | inr (inr (more, f)) ↦
            let first = on_frame-IsRecorded w jail payload t false chained more in
            IsRecorded-trans t (on_frame c s fs w jail payload t).1 t' first (
              run_turn-IsRecorded jail arrivals (on_frame c s fs w jail payload t).1 t' first.5
                (sym f ∙ h))
      ]

  -- When a turn is answered whose ledger was a chain when it was opened, the new entries are those
  -- of the commands and the successful patches that the turn reported to the gateway, in their
  -- order, each command with the hash of the output that was sent, and the ledger is a chain.
  pub execute_turn_via_tunnel-recorded :
      (req : ChatRequest) (b : Start c s fs) (workspace : fs.PathBuf) (arrivals : List Arrival)
      (files : Files) (resp : ChatResponse) (db : s.Db) (t : TurnState c s fs)
      → b.opened ≡ ok db
      → IsChained c (pos 1) genesis_hash (s.rows db)
      → execute_turn_via_tunnel c s fs req b workspace arrivals files ≡ (ok resp, some t)
      → (news : List AuditEntry) × (s.rows t.db ≡ s.rows db ++ news)
        × (map action_of news ≡ actions_of c t.sent)
        × IsChained c (pos 1) genesis_hash (s.rows t.db)
  execute_turn_via_tunnel-recorded req b workspace arrivals files resp db t opens chained h =
      let (jail, t0, t', began, ran, left, tools) =
        execute_turn_via_tunnel-ok req b workspace arrivals files resp (some t) h in
      let (made, from, fresh, unsent, opened) = begin_turn-ok b workspace files jail t0 began in
      let same_db : t0.db ≡ db = ok-injective (sym opened ∙ opens) in
      let same : t' ≡ t = ground (arith, left) in
      let (news, replies, rows, sent, actions, links) =
        run_turn-IsRecorded jail arrivals t0 t' (rw same_db chained) ran in
      rw (← same) (
        news,
        rows ∙ ap (λ d. s.rows d ++ news) same_db,
        actions ∙ sym (ap (actions_of c) (sent ∙ ap (λ l. l ++ replies) unsent)),
        links,
      )
