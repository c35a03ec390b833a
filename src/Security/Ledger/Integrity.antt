-- ===== src/Security/Ledger/Integrity.antt =====
-- ledger.rs: `append` and `verify_integrity` together, for every database that keeps the laws.
use syntropy.Prelude.{
  ℕ, ◌+◌, ◌≤◌, ◌≡◌, refl, ap, ◌↔◌, Bool, true, false, Option, none, some, List, [], ◌∷◌, ◌++◌,
  arith, Text, length, last?, ok, err, with_ok,
}
use mathlib.Core.Option
use syntropy.Security.Crypto.{Crypto}
use syntropy.Security.Ledger.Database.{
  I64, pos, AuditEntry, LedgerError, IsAfter, Sqlite, id_and_hash,
}
use syntropy.Security.Ledger.{
  next, IntegrityReport, verify_rows, verify_read, genesis_hash, verify_integrity, append_tx,
  append, append_with_hash, next_link, new_entry, hash_payload,
}
use syntropy.Security.Ledger.Chain.{
  IsChained, end_hash, end_id, latest_from, verify_read-rows, verify_rows_sound,
  verify_rows_complete, IsChained-append,
}

module _ (c : Crypto) where
  -- The report of a scan that finds nothing.
  abbrev pub clean : List AuditEntry → IntegrityReport
  clean rows = record {
    is_valid = true;
    verified_count = 0 + length rows;
    latest_hash = latest_from none rows;
    violation = none;
  }

  pub IsChained-IsAfter :
      (k n : ℕ) (prev : Text) (rows : List AuditEntry)
      → IsChained c (pos k) prev rows
      → k + length rows ≤ n
      → IsAfter (pos n) rows
  unfolding next
  IsChained-IsAfter k n prev [] h le = tt
  IsChained-IsAfter k n prev (e ∷ rows) h le =
      (rw (h.0) (omega arith), IsChained-IsAfter (k + 1) n e.entry_hash rows h.3 (omega arith))

  pub end_id-pos : (k : ℕ) (rows : List AuditEntry) → end_id (pos k) rows ≡ pos (k + length rows)
  unfolding next
  end_id-pos k [] = ground arith
  end_id-pos k (e ∷ rows) = ground (arith, end_id-pos (k + 1) rows)

  -- What the query for the last entry finds in a chain.
  pub last-link :
      (id : I64) (prev : Text) (e : AuditEntry) (rows : List AuditEntry)
      → IsChained c id prev (e ∷ rows)
      → (l : AuditEntry) × (last? (e ∷ rows) ≡ some l)
        × (next l.entry_id ≡ end_id id (e ∷ rows))
        × (l.entry_hash ≡ end_hash prev (e ∷ rows))
  last-link id prev e [] h = (e, refl, ap next h.0, refl)
  last-link id prev e (f ∷ rows) h = last-link (next id) e.entry_hash f rows h.3

  module _ (s : Sqlite) where
    pub next_link-end :
        (rows : List AuditEntry)
        → IsChained c (pos 1) genesis_hash rows
        → next_link c s (Option.map id_and_hash (last? rows))
          ≡ (end_id (pos 1) rows, end_hash genesis_hash rows)
    unfolding next_link
    next_link-end [] h = refl
    next_link-end (e ∷ rows) h =
        let (l, p, q, r) = last-link (pos 1) genesis_hash e rows h in ground arith

    -- If the scan of the table returns a report, the report is valid exactly when the rows are a
    -- chain from the genesis hash, and then it counts every row and gives the hash of the last.
    pub verify_integrity_iff :
        (poisoned : Bool) (db : s.Db) (r : IntegrityReport)
        → verify_integrity c s poisoned db ≡ ok r
        → ((r.is_valid ≡ true) ↔ IsChained c (pos 1) genesis_hash (s.rows db))
          × (r.is_valid ≡ true → r ≡ clean (s.rows db))
    unfolding verify_integrity
    verify_integrity_iff true db r h = absurd (ground arith)
    verify_integrity_iff false db r h =
        with_ok (s.select_all db) (verify_read c (pos 1) genesis_hash 0 none) h λ l p q.
          let read = s.select_all_rows db l p in
          let report : scan (s.rows db) ≡ r =
            verify_read-rows c (pos 1) genesis_hash 0 none l (s.rows db) r read q in
          rw (← report) (
            (
              verify_rows_sound c (pos 1) genesis_hash 0 none (s.rows db),
              λ k. ap (λ (x : IntegrityReport). x.is_valid) (full k),
            ),
            λ v. full (verify_rows_sound c (pos 1) genesis_hash 0 none (s.rows db) v),
          )
      where
        scan : List AuditEntry → IntegrityReport
        scan rows = verify_rows c (pos 1) genesis_hash 0 none rows

        full : IsChained c (pos 1) genesis_hash (s.rows db) → scan (s.rows db) ≡ clean (s.rows db)
        full k = verify_rows_complete c (pos 1) genesis_hash 0 none (s.rows db) k

    statements-rows :
        (db tx tx' db' : s.Db) (o : Option (I64 × Text)) (e : AuditEntry)
        (timestamp agent_id action_type payload_hash : Text)
        → IsChained c (pos 1) genesis_hash (s.rows db)
        → s.transaction db ≡ ok tx
        → s.select_last tx ≡ ok o
        → s.insert_row e tx ≡ ok tx'
        → s.commit tx' ≡ ok db'
        → e ≡ new_entry c s (next_link c s o) timestamp agent_id action_type payload_hash
        → (s.rows db' ≡ s.rows db ++ e ∷ [])
          × IsChained c (end_id (pos 1) (s.rows db)) (end_hash genesis_hash (s.rows db)) (e ∷ [])
    unfolding new_entry
    statements-rows db tx tx' db' o e ts ag ac ph k h1 h2 h3 h4 h5 =
        let link : next_link c s o
            ≡ (end_id (pos 1) (s.rows db), end_hash genesis_hash (s.rows db)) =
          cc (
            s.select_last_rows tx o h2,
            s.transaction_rows db tx h1,
            next_link-end (s.rows db) k,
          ) in
        let id_eq_end : e.entry_id ≡ end_id (pos 1) (s.rows db) = cc in
        let after : IsAfter e.entry_id (s.rows tx) =
          rw (id_eq_end, s.transaction_rows db tx h1, end_id-pos)
            (IsChained-IsAfter 1 _ genesis_hash (s.rows db) k (omega arith)) in
        (
          cc (
            s.insert_row_rows e tx tx' after h3,
            s.commit_rows tx' db' h4,
            s.transaction_rows db tx h1,
          ),
          (id_eq_end, cc, cc, tt),
        )

    -- What a successful transaction did to the rows.
    append_tx-rows :
        (poisoned : Bool) (db db' : s.Db) (timestamp agent_id action_type payload_hash : Text)
        (e : AuditEntry)
        → append_tx c s poisoned db timestamp agent_id action_type payload_hash ≡ ok (e, db')
        → IsChained c (pos 1) genesis_hash (s.rows db)
        → (s.rows db' ≡ s.rows db ++ e ∷ [])
          × IsChained c (end_id (pos 1) (s.rows db)) (end_hash genesis_hash (s.rows db)) (e ∷ [])
          × (e.agent_id ≡ agent_id)
          × (e.payload_hash ≡ payload_hash)
          × (e.action_type ≡ action_type)
    unfolding append_tx new_entry
    append_tx-rows true db db' ts ag ac ph e h k = absurd (ground arith)
    append_tx-rows false db db' ts ag ac ph e h k = with_ok (s.transaction db) _ h λ tx h1 k1.
        with_ok (s.select_last tx) _ k1 λ o h2 k2. with_ok (s.insert_row _ tx) _ k2 λ tx' h3 k3.
          with_ok (s.commit tx') _ k3 λ db2 h4 k4.
            let (rows', link) =
              statements-rows db tx tx' db2 o (new_entry c s (next_link c s o) ts ag ac ph) ts ag ac
                ph k h1 h2 h3 h4 refl in
            let e' : new_entry c s (next_link c s o) ts ag ac ph ≡ e = cc in
            let d' : db2 ≡ db' = cc in rw (← e', ← d') (rows', link, refl, refl, refl)

    -- Where the rows are a chain from the genesis hash, an entry that `append` returns stands behind
    -- the old rows, carries the agent id, the action type and the hash of the payload, and the rows
    -- are a chain again.
    pub append-IsChained :
        (poisoned : Bool) (db db' : s.Db) (timestamp agent_id action_type payload : Text)
        (e : AuditEntry)
        → append c s poisoned db timestamp agent_id action_type payload ≡ (ok e, db')
        → IsChained c (pos 1) genesis_hash (s.rows db)
        → (s.rows db' ≡ s.rows db ++ e ∷ [])
          × IsChained c (pos 1) genesis_hash (s.rows db')
          × (e.agent_id ≡ agent_id)
          × (e.payload_hash ≡ hash_payload c payload)
          × (e.action_type ≡ action_type)
    unfolding append append_with_hash
    append-IsChained poisoned db db' ts ag ac pl e h k =
        let p : append_tx c s poisoned db ts ag ac (hash_payload c pl) ≡ ok (e, db') =
          ground arith in
        let (rows', link, agent, payload, action) =
          append_tx-rows poisoned db db' ts ag ac _ e p k in
        (
          rows',
          rw rows' (IsChained-append c (pos 1) genesis_hash (s.rows db) e k link),
          agent,
          payload,
          action,
        )

    -- An `append` that fails leaves the database as it was.
    pub append-err :
        (poisoned : Bool) (db db' : s.Db) (timestamp agent_id action_type payload : Text)
        (x : LedgerError)
        → append c s poisoned db timestamp agent_id action_type payload ≡ (err x, db')
        → db' ≡ db
    unfolding append append_with_hash
    append-err poisoned db db' ts ag ac pl x h = ground arith
