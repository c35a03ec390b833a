-- ===== src/Security/Ledger/Database.antt =====
-- The table `audit_ledger` of ledger.rs, and what the ledger takes from SQLite through `rusqlite`.
use syntropy.Prelude.{
  err, ok, ℕ, ◌<◌, ◌≡◌, List, [], ◌∷◌, ◌++◌, map, Option, none, some, Text, last?, take, drop,
  length, Bool, false, ◌==◌, if◌then◌else◌, Result, ok,
}
use mathlib.Core.Option

-- `i64`: `negsuc n` is -(n + 1).
pub data I64 : Type 0 where
  pos : ℕ → I64
  negsuc : ℕ → I64

pub record AuditEntry : Type 0 where
  pub entry_id : I64
  pub timestamp : Text
  pub agent_id : Text
  pub action_type : Text
  pub payload_hash : Text
  pub previous_hash : Text
  pub entry_hash : Text

pub data LedgerError : Type 0 where
  sqlite : Text → LedgerError
  lock_error : LedgerError
  corrupted : Text → LedgerError

abbrev pub id_and_hash : AuditEntry → I64 × Text
id_and_hash e = (e.entry_id, e.entry_hash)

-- `a == b` on `i64`.
unfoldable pub id_eq : I64 → I64 → Bool
id_eq (pos m) (pos n) = m == n
id_eq (pos m) (negsuc n) = false
id_eq (negsuc m) (pos n) = false
id_eq (negsuc m) (negsuc n) = m == n

-- The order of `i64`, by which the table is kept.
abbrev pub IdLt : I64 → I64 → Type 0
IdLt (pos m) (pos n) = m < n
IdLt (pos m) (negsuc n) = ⊥
IdLt (negsuc m) (pos n) = Unit
IdLt (negsuc m) (negsuc n) = n < m

-- An id above those of all the rows.
abbrev pub IsAfter : I64 → List AuditEntry → Type 0
IsAfter id [] = Unit
IsAfter id (e ∷ rows) = IdLt e.entry_id id × IsAfter id rows

-- `WHERE entry_id = ?1`: the ids are a primary key, so at most one row has it.
abbrev pub row_at : I64 → List AuditEntry → Option AuditEntry
row_at id [] = none
row_at id (e ∷ rows) = if id_eq e.entry_id id then some e else row_at id rows

-- `LIMIT ?1 OFFSET ?2`: a negative limit is none, and a negative offset is 0.
abbrev pub limited : I64 → List AuditEntry → List AuditEntry
limited (pos n) rows = take n rows
limited (negsuc n) rows = rows

abbrev pub page : I64 → I64 → List AuditEntry → List AuditEntry
page limit (pos n) rows = limited limit (drop n rows)
page limit (negsuc n) rows = limited limit rows

-- The rows of a query as they are read one by one: up to the first that cannot be read they are
-- those of the table.
abbrev pub AreRead : List (Result LedgerError AuditEntry) → List AuditEntry → Type 0
AreRead [] [] = Unit
AreRead [] (r ∷ rows) = ⊥
AreRead (err x ∷ read) rows = Unit
AreRead (ok e ∷ read) [] = ⊥
AreRead (ok e ∷ read) (r ∷ rows) = (e ≡ r) × AreRead read rows

-- A database connection, by the statements that the ledger runs. `rows` is the contents of the
-- table by ascending `entry_id`. The laws say what each statement reads and writes if it succeeds;
-- every statement may fail instead. An inserted row whose id is the largest stands last.
pub record Sqlite : Type 1 where
  pub Db : Type 0
  pub rows : Db → List AuditEntry
  pub transaction : Db → Result LedgerError Db
  pub select_last : Db → Result LedgerError (Option (I64 × Text))
  pub select_all : Db → Result LedgerError (List (Result LedgerError AuditEntry))
  pub select_hashes : Db → Result LedgerError (List Text)
  pub select_by_id : I64 → Db → Result LedgerError (Option AuditEntry)
  pub select_newest : Db → Result LedgerError (Option AuditEntry)
  pub select_page : I64 → I64 → Db → Result LedgerError (List AuditEntry)
  pub select_count : Db → Result LedgerError I64
  pub insert_row : AuditEntry → Db → Result LedgerError Db
  pub commit : Db → Result LedgerError Db
  pub transaction_rows : (d t : Db) → transaction d ≡ ok t → rows t ≡ rows d
  pub select_last_rows :
      (d : Db) (o : Option (I64 × Text))
      → select_last d ≡ ok o
      → o ≡ Option.map id_and_hash (last? (rows d))
  pub select_all_rows :
      (d : Db) (l : List (Result LedgerError AuditEntry)) → select_all d ≡ ok l → AreRead l (rows d)
  pub select_hashes_rows :
      (d : Db) (l : List Text) → select_hashes d ≡ ok l → l ≡ map (λ e. e.entry_hash) (rows d)
  pub select_by_id_rows :
      (id : I64) (d : Db) (o : Option AuditEntry)
      → select_by_id id d ≡ ok o
      → o ≡ row_at id (rows d)
  pub select_newest_rows :
      (d : Db) (o : Option AuditEntry) → select_newest d ≡ ok o → o ≡ last? (rows d)
  pub select_page_rows :
      (limit offset : I64) (d : Db) (l : List AuditEntry)
      → select_page limit offset d ≡ ok l
      → l ≡ page limit offset (rows d)
  pub select_count_rows : (d : Db) (n : I64) → select_count d ≡ ok n → n ≡ pos (length (rows d))
  pub insert_row_rows :
      (e : AuditEntry) (d t : Db)
      → IsAfter e.entry_id (rows d)
      → insert_row e d ≡ ok t
      → rows t ≡ rows d ++ e ∷ []
  pub commit_rows : (d t : Db) → commit d ≡ ok t → rows t ≡ rows d
