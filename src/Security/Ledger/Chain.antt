-- ===== src/Security/Ledger/Chain.antt =====
-- What `verify_integrity` of ledger.rs accepts: the chains of entries, described on their own.
use syntropy.Prelude.{
  ℕ, zero, suc, ◌+◌, ◌≡◌, ◌↔◌, true, Option, none, some, List, [], ◌∷◌, ◌++◌, arith, Text,
  text_eq_iff, length, take, Result, ok, err,
}
use syntropy.Security.Crypto.{Crypto}
use syntropy.Security.Ledger.Database.{I64, pos, negsuc, AuditEntry, LedgerError, AreRead}
use syntropy.Security.Ledger.{next, id_eq, verify_rows, verify_read, IntegrityReport, recomputed}

pub id_eq_iff : (a b : I64) → (id_eq a b ≡ true) ↔ (a ≡ b)
unfolding id_eq
id_eq_iff (pos m) (pos n) = ground arith
id_eq_iff (pos m) (negsuc n) = ground arith
id_eq_iff (negsuc m) (pos n) = ground arith
id_eq_iff (negsuc m) (negsuc n) = ground arith

-- The hash that the next entry is chained to.
abbrev pub end_hash : Text → List AuditEntry → Text
end_hash prev [] = prev
end_hash prev (e ∷ rows) = end_hash e.entry_hash rows

-- The id that the next entry gets.
abbrev pub end_id : I64 → List AuditEntry → I64
end_id id [] = id
end_id id (e ∷ rows) = end_id (next id) rows

-- The hash that a scan reports last.
abbrev pub latest_from : Option Text → List AuditEntry → Option Text
latest_from latest [] = latest
latest_from latest (e ∷ rows) = latest_from (some e.entry_hash) rows

module _ (c : Crypto) where
  -- The rows have the ids from `id` on without a gap, each is chained to the one before, and each
  -- holds the hash of its own fields.
  abbrev pub IsChained : I64 → Text → List AuditEntry → Type 0
  IsChained id prev [] = Unit
  IsChained id prev (e ∷ rows) =
      (e.entry_id ≡ id)
      × (e.previous_hash ≡ prev)
      × (e.entry_hash ≡ recomputed c e)
      × IsChained (next id) e.entry_hash rows

  -- A scan that returns a report returns the one of the rows of the table, whether it read them all
  -- or not.
  pub verify_read-rows :
      (id : I64) (prev : Text) (n : ℕ) (latest : Option Text)
      (read : List (Result LedgerError AuditEntry)) (rows : List AuditEntry) (r : IntegrityReport)
      → AreRead read rows
      → verify_read c id prev n latest read ≡ ok r
      → verify_rows c id prev n latest rows ≡ r
  unfolding verify_rows verify_read
  verify_read-rows id prev n latest [] [] r a h = ground arith
  verify_read-rows id prev n latest [] (e ∷ rows) r a h = absurd a
  verify_read-rows id prev n latest (err x ∷ read) rows r a h = absurd (ground arith)
  verify_read-rows id prev n latest (ok e ∷ read) [] r a h = absurd a
  verify_read-rows id prev n latest (ok e ∷ read) (f ∷ rows) r (same, a) h = rw (← same) (
      ground (
        arith,
        h,
        verify_read-rows (next id) e.entry_hash (n + 1) (some e.entry_hash) read rows r a,
      ))

  pub verify_rows_sound :
      (id : I64) (prev : Text) (n : ℕ) (latest : Option Text) (rows : List AuditEntry)
      → (verify_rows c id prev n latest rows).is_valid ≡ true
      → IsChained id prev rows
  unfolding verify_rows
  verify_rows_sound id prev n latest [] h = tt
  verify_rows_sound id prev n latest (e ∷ rows) h = ground (
    arith,
    id_eq_iff e.entry_id id,
    text_eq_iff e.previous_hash prev,
    text_eq_iff (recomputed c e) e.entry_hash,
    verify_rows_sound (next id) e.entry_hash (n + 1) (some e.entry_hash) rows,
  )

  pub verify_rows_complete :
      (id : I64) (prev : Text) (n : ℕ) (latest : Option Text) (rows : List AuditEntry)
      → IsChained id prev rows
      → verify_rows c id prev n latest rows ≡ record {
        is_valid = true;
        verified_count = n + length rows;
        latest_hash = latest_from latest rows;
        violation = none;
      }
  unfolding verify_rows
  verify_rows_complete id prev n latest [] h = ground arith
  verify_rows_complete id prev n latest (e ∷ rows) h = ground (
    arith,
    id_eq_iff e.entry_id id,
    text_eq_iff e.previous_hash prev,
    text_eq_iff (recomputed c e) e.entry_hash,
    verify_rows_complete (next id) e.entry_hash (n + 1) (some e.entry_hash) rows,
  )

  -- A chain may be continued at its end.
  pub IsChained-append :
      (id : I64) (prev : Text) (rows : List AuditEntry) (e : AuditEntry)
      → IsChained id prev rows
      → IsChained (end_id id rows) (end_hash prev rows) (e ∷ [])
      → IsChained id prev (rows ++ e ∷ [])
  IsChained-append id prev [] e h k = k
  IsChained-append id prev (r ∷ rows) e h k =
      (h.0, h.1, h.2, IsChained-append (next id) r.entry_hash rows e h.3 k)

  pub IsChained-take :
      (k : ℕ) (id : I64) (prev : Text) (rows : List AuditEntry)
      → IsChained id prev rows
      → IsChained id prev (take k rows)
  IsChained-take zero id prev rows h = tt
  IsChained-take (suc k) id prev [] h = tt
  IsChained-take (suc k) id prev (r ∷ rows) h =
      (h.0, h.1, h.2, IsChained-take k (next id) r.entry_hash rows h.3)
