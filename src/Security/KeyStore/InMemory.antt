-- ===== src/Security/KeyStore/InMemory.antt =====
-- keystore.rs: `InMemoryKeyStore`.
use syntropy.Prelude.{
  Bool, Option, Text, lit, Dict, lookup, insert, remove, Result, ok, err, if◌then◌else◌,
}
use syntropy.Security.KeyStore.{KeyStoreError, lock_error, is_some}

-- `poisoned` says that a holder of the lock has panicked.
pub record InMemoryKeyStore : Type 0 where
  pub poisoned : Bool
  pub entries : Dict Text

unfoldable pub set :
    Text → Text → InMemoryKeyStore → Result KeyStoreError (Unit {0}) × InMemoryKeyStore
set key secret s =
    if s.poisoned
    then (err (lock_error (lit "Failed to acquire write lock")), s)
    else (ok tt, record s { entries = insert key secret s.entries })

unfoldable pub get : Text → InMemoryKeyStore → Result KeyStoreError (Option Text)
get key s =
    if s.poisoned
    then err (lock_error (lit "Failed to acquire read lock"))
    else ok (lookup key s.entries)

unfoldable pub delete : Text → InMemoryKeyStore → Result KeyStoreError Bool × InMemoryKeyStore
delete key s =
    if s.poisoned
    then (err (lock_error (lit "Failed to acquire write lock")), s)
    else (ok (is_some (lookup key s.entries)), record s { entries = remove key s.entries })
