-- ===== src/Security/Ledger/Readers.antt =====
-- ledger.rs: `get_entry`, `get_latest_entry`, `get_entries` and `count`.
use syntropy.Prelude.{
  ℕ, ◌+◌, ◌-◌, ◌%◌, ◌^◌, ◌<◌, ◌≡◌, refl, sym, ap, ◌∙◌, Bool, true, false, not, Option, some, List,
  [], ◌∷◌, ◌++◌, Text, length, last?, take, drop, length-append, last?-append, ltb, if◌then◌else◌,
  Result, ok, ◌>>=◌, ◌>>◌, guard, with_ok, ok-injective, Bool-cases, inl, inr, arith,
}
use mathlib.Core.Path.{subst}
use syntropy.Security.Crypto.{Crypto}
use syntropy.Security.Ledger.Database.{
  I64, pos, negsuc, id_eq, AuditEntry, LedgerError, lock_error, Sqlite, row_at, page,
}
use syntropy.Security.Ledger.{append, genesis_hash, next}
use syntropy.Security.Ledger.Chain.{IsChained, id_eq_iff}
use syntropy.Security.Ledger.Integrity.{append-IsChained}

-- `n as i64` of a `usize`.
abbrev pub as_i64 : ℕ → I64
as_i64 n = let k = n % 2 ^ 64 in if ltb k (2 ^ 63) then pos k else negsuc (2 ^ 64 - 1 - k)

-- `n as usize` of an `i64`.
abbrev pub as_usize : I64 → ℕ
as_usize (pos n) = n % 2 ^ 64
as_usize (negsuc n) = 2 ^ 64 - 1 - n % 2 ^ 64

module _ (s : Sqlite) where
  unfoldable pub get_entry : Bool → s.Db → I64 → Result LedgerError (Option AuditEntry)
  get_entry poisoned db entry_id = do guard (not poisoned) lock_error; s.select_by_id entry_id db

  unfoldable pub get_latest_entry : Bool → s.Db → Result LedgerError (Option AuditEntry)
  get_latest_entry poisoned db = do guard (not poisoned) lock_error; s.select_newest db

  unfoldable pub get_entries : Bool → s.Db → ℕ → ℕ → Result LedgerError (List AuditEntry)
  get_entries poisoned db offset limit = do
    guard (not poisoned) lock_error
    s.select_page (as_i64 limit) (as_i64 offset) db

  unfoldable pub count : Bool → s.Db → Result LedgerError ℕ
  count poisoned db = do guard (not poisoned) lock_error; n ← s.select_count db; ok (as_usize n)

  get_entry-rows :
      (poisoned : Bool) (db : s.Db) (id : I64) (o : Option AuditEntry)
      → get_entry poisoned db id ≡ ok o
      → o ≡ row_at id (s.rows db)
  unfolding get_entry
  get_entry-rows true db id o h = absurd (ground arith)
  get_entry-rows false db id o h = s.select_by_id_rows id db o h

  get_latest_entry-rows :
      (poisoned : Bool) (db : s.Db) (o : Option AuditEntry)
      → get_latest_entry poisoned db ≡ ok o
      → o ≡ last? (s.rows db)
  unfolding get_latest_entry
  get_latest_entry-rows true db o h = absurd (ground arith)
  get_latest_entry-rows false db o h = s.select_newest_rows db o h

  pub get_entries-rows :
      (poisoned : Bool) (db : s.Db) (offset limit : ℕ) (l : List AuditEntry)
      → offset < 2 ^ 63
      → limit < 2 ^ 63
      → get_entries poisoned db offset limit ≡ ok l
      → l ≡ take limit (drop offset (s.rows db))
  unfolding get_entries
  get_entries-rows true db offset limit l p q h = absurd (ground arith)
  get_entries-rows false db offset limit l p q h =
      s.select_page_rows (as_i64 limit) (as_i64 offset) db l h
      ∙ ap (λ k. page k (as_i64 offset) (s.rows db)) (as_i64_small limit q)
      ∙ ap (λ k. page (pos limit) k (s.rows db)) (as_i64_small offset p)
    where
      as_i64_small : (n : ℕ) → n < 2 ^ 63 → as_i64 n ≡ pos n
      as_i64_small n h = ground arith

  pub count-rows :
      (poisoned : Bool) (db : s.Db) (n : ℕ)
      → count poisoned db ≡ ok n
      → n ≡ length (s.rows db) % 2 ^ 64
  unfolding count
  count-rows true db n h = absurd (ground arith)
  count-rows false db n h =
      with_ok (s.select_count db) (λ k. ok (as_usize k)) h
        λ k p q. let e = s.select_count_rows db k p in sym (ok-injective q) ∙ ap as_usize e

module _ (c : Crypto) where
  -- The ids of a chain count up from the first.
  last_id :
      (k : ℕ) (prev : Text) (rows : List AuditEntry) (e : AuditEntry)
      → IsChained c (pos k) prev (rows ++ e ∷ [])
      → e.entry_id ≡ pos (k + length rows)
  unfolding next
  last_id k prev [] e h = ground (arith, h.0)
  last_id k prev (x ∷ rows) e h = last_id (k + 1) x.entry_hash rows e h.3 ∙ ap pos (omega arith)

  -- A search for the id of the last row finds that row.
  row_at-append :
      (k : ℕ) (prev : Text) (rows : List AuditEntry) (e : AuditEntry)
      → IsChained c (pos k) prev (rows ++ e ∷ [])
      → row_at e.entry_id (rows ++ e ∷ []) ≡ some e
  unfolding next
  row_at-append k prev [] e h = rw ((id_eq_iff e.entry_id e.entry_id).1 refl) refl
  row_at-append k prev (x ∷ rows) e h = elim (Bool-cases (id_eq x.entry_id e.entry_id)) [
    | inl t ↦
        let same : pos k ≡ pos (k + length (x ∷ rows)) =
          sym h.0 ∙ (id_eq_iff x.entry_id e.entry_id).0 t ∙ last_id k prev (x ∷ rows) e h in
        absurd (ground (arith, same))
    | inr f ↦ rw f (row_at-append (k + 1) x.entry_hash rows e h.3)
  ]

  -- An entry that `append` returned in a chain is then the latest entry, the one that its id is
  -- found by, and one more of those that are counted, where the readers succeed and the entries
  -- fit into 64 bits.
  pub append-readable :
      (s : Sqlite) (poisoned p1 p2 p3 p4 : Bool) (db db' : s.Db)
      (timestamp agent_id action_type payload : Text) (e : AuditEntry) (o o' : Option AuditEntry)
      (n n' : ℕ)
      → append c s poisoned db timestamp agent_id action_type payload ≡ (ok e, db')
      → IsChained c (pos 1) genesis_hash (s.rows db)
      → length (s.rows db) + 1 < 2 ^ 64
      → get_latest_entry s p1 db' ≡ ok o
      → get_entry s p2 db' e.entry_id ≡ ok o'
      → count s p3 db ≡ ok n
      → count s p4 db' ≡ ok n'
      → (o ≡ some e) × (o' ≡ some e) × (n' ≡ n + 1)
  append-readable s poisoned p1 p2 p3 p4 db db' ts ag ac pl e o o' n n' h k small l g a b =
      let (rows', chained, agent, payload, action) =
        append-IsChained c s poisoned db db' ts ag ac pl e h k in
      let links = subst (IsChained c (pos 1) genesis_hash) rows' chained in
      let counts : length (s.rows db') ≡ length (s.rows db) + 1 =
        ap length rows' ∙ length-append (s.rows db) (e ∷ []) in
      (
        get_latest_entry-rows s p1 db' o l ∙ ap last? rows' ∙ last?-append (s.rows db) e,
        get_entry-rows s p2 db' e.entry_id o' g
            ∙ ap (row_at e.entry_id) rows'
            ∙ row_at-append 1 genesis_hash (s.rows db) e links,
        omega (arith, counts, count-rows s p3 db n a, count-rows s p4 db' n' b),
      )
