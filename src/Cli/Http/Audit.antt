-- ===== src/Cli/Http/Audit.antt =====
-- syntropy-cli/src/ui.rs: what `/api/audit` says of the ledger.
use syntropy.Prelude.{
  ℕ, ◌-◌, ◌^◌, ◌<◌, ◌≤◌, ◌≡◌, ap, ◌∙◌, Bool, true, List, map, length, drop, length-drop,
  take_of_length-le, ok, Result-cases, inl, inr, arith,
}
use syntropy.Security.Crypto.{Crypto}
use syntropy.Security.Ledger.{genesis_hash, verify_integrity}
use syntropy.Security.Ledger.Database.{AuditEntry, Sqlite, pos}
use syntropy.Security.Ledger.Chain.{IsChained}
use syntropy.Security.Ledger.Integrity.{verify_integrity_iff}
use syntropy.Security.Ledger.Readers.{get_entries, count, get_entries-rows, count-rows}
use syntropy.Cli.Http.{view_of, query_recent_audit_entries, audit_view}

-- A ledger that is shown as verified is a hash chain from the genesis hash, of as many entries as
-- are shown.
pub audit_view_verified :
    (c : Crypto) (s : Sqlite) (poisoned : Bool) (db : s.Db)
    → (audit_view s c poisoned db).verified ≡ true
    → IsChained c (pos 1) genesis_hash (s.rows db)
      × ((audit_view s c poisoned db).total_entries ≡ length (s.rows db))
unfolding audit_view
audit_view_verified c s poisoned db h = elim (Result-cases (verify_integrity c s poisoned db)) [
  | inr (e, f) ↦ absurd (ground (arith, f))
  | inl (r, f) ↦
      let (sound, counted) = verify_integrity_iff c s poisoned db r f in
      let valid : r.is_valid ≡ true = ground (arith, f) in
      (sound.0 valid, ground (arith, f, ap (λ x. x.verified_count) (counted valid)))
]

-- Where both readers succeed and the entries fit into 63 bits, the entries that are shown are the
-- last 25 of the ledger, or all of them if there are fewer.
pub query_recent_audit_entries-latest :
    (s : Sqlite) (poisoned : Bool) (db : s.Db) (n : ℕ) (l : List AuditEntry)
    → length (s.rows db) < 2 ^ 63
    → count s poisoned db ≡ ok n
    → get_entries s poisoned db (n - 25) 25 ≡ ok l
    → query_recent_audit_entries s poisoned db
      ≡ map view_of (drop (length (s.rows db) - 25) (s.rows db))
unfolding query_recent_audit_entries
query_recent_audit_entries-latest s poisoned db n l small counted got =
    let all : n ≡ length (s.rows db) = omega (arith, count-rows s poisoned db n counted) in
    let from = n - 25 in
    let cut = drop from (s.rows db) in
    let short : length cut ≤ 25 = omega (arith, length-drop from (s.rows db), all) in
    let shown : l ≡ cut =
      get_entries-rows s poisoned db from 25 l (omega (arith, all)) (omega arith) got
      ∙ take_of_length-le 25 cut short in
    rw (counted, got) (ap (map view_of) (shown ∙ ap (λ k. drop (k - 25) (s.rows db)) all))
