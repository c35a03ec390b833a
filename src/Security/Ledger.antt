-- ===== src/Security/Ledger.antt =====
-- ledger.rs: the audit trail in an SQLite table, hash-chained entry by entry.
pub mod Database
pub mod Chain
pub mod Integrity
pub mod Readers
pub mod Tamper
pub mod Merkle
use syntropy.Prelude.{
  ℕ, zero, suc, ◌+◌, ◌-◌, ◌/◌, ◌%◌, ◌^◌, Bool, true, false, Option, none, some, List, [], ◌∷◌, ◌++◌,
  map, Text, String, lit, text_eq, be_bytes, length, Result, ok, err, ◌>>=◌, ◌>>◌, guard,
  if◌then◌else◌, not, ◌==◌,
}
use mathlib.Core.Option
use syntropy.Security.Crypto.{Crypto}
unfoldable pub use Database.{id_eq}
use Database.{I64, pos, negsuc, AuditEntry, LedgerError, sqlite, lock_error, Sqlite}

-- `GENESIS_HASH`: 64 zero digits.
abbrev pub genesis_hash : Text
genesis_hash = lit "0000000000000000000000000000000000000000000000000000000000000000"

-- `id + 1` below the largest `i64`, for which a table would have to hold as many rows.
unfoldable pub next : I64 → I64
next (pos n) = pos (n + 1)
next (negsuc zero) = pos 0
next (negsuc (suc n)) = negsuc n

-- The bit pattern of an `i64`.
abbrev bits : I64 → ℕ
bits (pos n) = n % 2 ^ 64
bits (negsuc n) = 2 ^ 64 - 1 - n % 2 ^ 64

-- `id.to_be_bytes()`
unfoldable pub to_be_bytes : I64 → Text
unfolding be_bytes
to_be_bytes id = be_bytes (bits id)

-- What the hasher of `compute_entry_hash` is fed: the fields one behind the other.
unfoldable pub preimage : I64 → Text → Text → Text → Text → Text → Text
preimage entry_id timestamp agent_id action_type payload_hash previous_hash =
    previous_hash
    ++ (to_be_bytes entry_id ++ (timestamp ++ (agent_id ++ (action_type ++ payload_hash))))

pub data IntegrityViolation : Type 0 where
  genesis_mismatch : Text → IntegrityViolation
  non_contiguous_id : I64 → I64 → IntegrityViolation
  broken_chain : I64 → Text → Text → IntegrityViolation
  corrupted_entry : I64 → Text → Text → IntegrityViolation

pub record IntegrityReport : Type 0 where
  pub is_valid : Bool
  pub verified_count : ℕ
  pub latest_hash : Option Text
  pub violation : Option IntegrityViolation

-- An early return of `verify_integrity`.
abbrev rejected : ℕ → Option Text → IntegrityViolation → IntegrityReport
rejected count latest v = record {
  is_valid = false;
  verified_count = count;
  latest_hash = latest;
  violation = some v;
}

module _ (c : Crypto) where
  unfoldable pub hash_payload : Text → Text
  hash_payload payload = c.hex_encode (c.sha256 payload)

  unfoldable pub compute_entry_hash : I64 → Text → Text → Text → Text → Text → Text
  compute_entry_hash entry_id timestamp agent_id action_type payload_hash previous_hash =
      c.hex_encode
        (c.sha256 (preimage entry_id timestamp agent_id action_type payload_hash previous_hash))

  -- The hash that the loop recomputes for a row.
  abbrev pub recomputed : AuditEntry → Text
  recomputed e =
      compute_entry_hash e.entry_id e.timestamp e.agent_id e.action_type e.payload_hash
        e.previous_hash

  -- The loop of `verify_integrity`, over the rows that are left, where all can be read.
  unfoldable pub verify_rows : I64 → Text → ℕ → Option Text → List AuditEntry → IntegrityReport
  verify_rows expected_id expected_prev count latest [] = record {
    is_valid = true;
    verified_count = count;
    latest_hash = latest;
    violation = none;
  }
  verify_rows expected_id expected_prev count latest (e ∷ rows) =
      let rest = verify_rows (next expected_id) e.entry_hash (count + 1) (some e.entry_hash) rows in
      if not (id_eq e.entry_id expected_id)
      then rejected count latest (non_contiguous_id expected_id e.entry_id)
      else if not (text_eq e.previous_hash expected_prev)
      then (if id_eq expected_id (pos 1)
          then rejected count latest (genesis_mismatch e.previous_hash)
          else rejected count latest (broken_chain e.entry_id expected_prev e.previous_hash))
      else if not (text_eq (recomputed e) e.entry_hash)
      then rejected count latest (corrupted_entry e.entry_id (recomputed e) e.entry_hash)
      else rest

  -- The loop of `verify_integrity`, over the rows as they are read: a row that cannot be read ends
  -- it, unless a violation has been found before.
  unfoldable pub verify_read :
      I64
      → Text
      → ℕ
      → Option Text
      → List (Result LedgerError AuditEntry)
      → Result LedgerError IntegrityReport
  verify_read expected_id expected_prev count latest [] =
      ok
        (record { is_valid = true; verified_count = count; latest_hash = latest; violation = none })
  verify_read expected_id expected_prev count latest (err x ∷ rows) = err x
  verify_read expected_id expected_prev count latest (ok e ∷ rows) =
      let rest = verify_read (next expected_id) e.entry_hash (count + 1) (some e.entry_hash) rows in
      if not (id_eq e.entry_id expected_id)
      then ok (rejected count latest (non_contiguous_id expected_id e.entry_id))
      else if not (text_eq e.previous_hash expected_prev)
      then (if id_eq expected_id (pos 1)
          then ok (rejected count latest (genesis_mismatch e.previous_hash))
          else ok (rejected count latest (broken_chain e.entry_id expected_prev e.previous_hash)))
      else if not (text_eq (recomputed e) e.entry_hash)
      then ok (rejected count latest (corrupted_entry e.entry_id (recomputed e) e.entry_hash))
      else rest

  module _ (s : Sqlite) where
    open s use {Db, transaction, select_last, select_all, insert_row, commit}

    -- `match last_entry`: the id of the next entry, and the hash it is chained to.
    unfoldable pub next_link : Option (I64 × Text) → I64 × Text
    next_link (some (id, hash)) = (next id, hash)
    next_link none = (pos 1, genesis_hash)

    -- The entry that `append_with_hash` inserts.
    unfoldable pub new_entry : I64 × Text → Text → Text → Text → Text → AuditEntry
    new_entry (id, prev) timestamp agent_id action_type payload_hash = record {
      entry_id = id;
      timestamp = timestamp;
      agent_id = agent_id;
      action_type = action_type;
      payload_hash = payload_hash;
      previous_hash = prev;
      entry_hash = compute_entry_hash id timestamp agent_id action_type payload_hash prev;
    }

    -- `append_with_hash` up to the commit; the `Db` is what the commit leaves.
    unfoldable pub append_tx :
        Bool → Db → Text → Text → Text → Text → Result LedgerError (AuditEntry × Db)
    append_tx poisoned db timestamp agent_id action_type payload_hash = do
      guard (not poisoned) lock_error
      tx ← transaction db
      last_entry ← select_last tx
      let e = new_entry (next_link last_entry) timestamp agent_id action_type payload_hash
      tx' ← insert_row e tx
      db' ← commit tx'
      ok (e, db')

    -- A transaction that is dropped without a commit is rolled back: the database stays.
    unfoldable pub append_with_hash :
        Bool → Db → Text → Text → Text → Text → Result LedgerError AuditEntry × Db
    append_with_hash poisoned db timestamp agent_id action_type payload_hash =
        elim (append_tx poisoned db timestamp agent_id action_type payload_hash) [
          | ok (e, db') ↦ (ok e, db')
          | err x ↦ (err x, db)
        ]

    unfoldable pub append :
        Bool → Db → Text → Text → Text → Text → Result LedgerError AuditEntry × Db
    append poisoned db timestamp agent_id action_type payload =
        append_with_hash poisoned db timestamp agent_id action_type (hash_payload payload)

    unfoldable pub verify_integrity : Bool → Db → Result LedgerError IntegrityReport
    unfolding verify_read
    verify_integrity poisoned db = do
      guard (not poisoned) lock_error
      rows ← select_all db
      verify_read (pos 1) genesis_hash 0 none rows
