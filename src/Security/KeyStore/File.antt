-- ===== src/Security/KeyStore/File.antt =====
-- keystore.rs: `EncryptedFileKeyStore`, a map in memory that every change writes to a file.
pub mod Durable
use syntropy.Prelude.{
  IsBytes, ℕ, ◌≡◌, Bool, true, false, not, Option, none, some, [], Text, lit, Dict, lookup, insert,
  remove, Result, ok, err, ◌>>=◌, ◌>>◌, guard, if◌then◌else◌,
}
use syntropy.Security.Crypto.{Crypto}
use syntropy.Security.KeyStore.{
  KeyStoreError, decryption_failed, corrupted_store, serialization, lock_error, is_some,
}
use syntropy.Security.KeyStore.Cipher.{
  CipherError, too_small, bad_magic, tag_mismatch, encrypt_payload, decrypt_payload,
}

-- `serde_json` on the map. What is written is bytes, and reading it back gives a map with the same
-- entries, in any order.
pub record Json : Type 0 where
  pub to_vec : Dict Text → Result KeyStoreError Text
  pub from_slice : Text → Result KeyStoreError (Dict Text)
  pub to_vec_bytes : (m : Dict Text) (t : Text) → to_vec m ≡ ok t → IsBytes t
  pub from_slice_to_vec :
      (m : Dict Text) (t : Text)
      → to_vec m ≡ ok t
      → (m' : Dict Text) × (from_slice t ≡ ok m') × ((k : Text) → lookup k m' ≡ lookup k m)

-- The store, and the file at its path: `none` where there is none.
pub record EncryptedFileKeyStore : Type 0 where
  pub master_key : Text
  pub entries : Dict Text
  pub file : Option Text

-- A store with no file yet.
abbrev pub fresh : Text → EncryptedFileKeyStore
fresh master_key = record { master_key = master_key; entries = []; file = none }

-- What one call meets outside: a poisoned lock, the two UUIDs of the encryption, and the first
-- error of the calls that write the file (`none` if all succeed). The file is replaced by a rename
-- at the end, so that a failure leaves it as it was.
pub record Outside : Type 0 where
  pub poisoned : Bool
  pub salt : Text
  pub nonce : Text
  pub write_error : Option KeyStoreError

-- The messages of `decrypt_payload`.
abbrev pub to_error : CipherError → KeyStoreError
to_error too_small = corrupted_store (lit "Payload is smaller than header")
to_error bad_magic = corrupted_store (lit "Invalid magic header")
to_error tag_mismatch = decryption_failed (lit "Authentication tag mismatch or corrupted file")

abbrev pub lift : Result CipherError Text → Result KeyStoreError Text
lift (ok t) = ok t
lift (err e) = err (to_error e)

-- Writing the file: the new contents, or the error of the first call that fails.
abbrev pub replace_file : Option KeyStoreError → Text → Result KeyStoreError Text
replace_file none contents = ok contents
replace_file (some e) contents = err e

module _ (c : Crypto) (j : Json) where
  -- The contents of the file that `persist` leaves.
  unfoldable pub persist : Outside → EncryptedFileKeyStore → Result KeyStoreError Text
  persist o s = do
    guard (not o.poisoned) (lock_error (lit "Failed to acquire read lock"))
    plaintext ← j.to_vec s.entries
    replace_file o.write_error (encrypt_payload c plaintext s.master_key o.salt o.nonce)

  -- `self.persist()` as the last act of a change that is already in memory.
  unfoldable pub persisted :
      {A : Type 0}
      → Outside
      → A
      → EncryptedFileKeyStore
      → Result KeyStoreError A × EncryptedFileKeyStore
  persisted o a s = elim (persist o s) [
    | ok contents ↦ (ok a, record s { file = some contents })
    | err e ↦ (err e, s)
  ]

  unfoldable pub read_and_decrypt : Text → Text → Result KeyStoreError (Dict Text)
  read_and_decrypt contents master_key = do
    plaintext ← lift (decrypt_payload c contents master_key)
    j.from_slice plaintext

  unfoldable pub open_or_create :
      Outside → Option Text → Text → Result KeyStoreError EncryptedFileKeyStore
  open_or_create o (some contents) master_key = do
    entries ← read_and_decrypt contents master_key
    ok (record { master_key = master_key; entries = entries; file = some contents })
  open_or_create o none master_key = do
    let s = fresh master_key
    contents ← persist o s
    ok (record s { file = some contents })

  unfoldable pub set :
      Outside
      → Text
      → Text
      → EncryptedFileKeyStore
      → Result KeyStoreError (Unit {0}) × EncryptedFileKeyStore
  set o key secret s =
      if o.poisoned
      then (err (lock_error (lit "Failed to acquire write lock")), s)
      else persisted o tt (record s { entries = insert key secret s.entries })

  unfoldable pub get : Outside → Text → EncryptedFileKeyStore → Result KeyStoreError (Option Text)
  get o key s =
      if o.poisoned
      then err (lock_error (lit "Failed to acquire read lock"))
      else ok (lookup key s.entries)

  unfoldable pub delete :
      Outside → Text → EncryptedFileKeyStore → Result KeyStoreError Bool × EncryptedFileKeyStore
  delete o key s =
      let s' = record s { entries = remove key s.entries } in
      if o.poisoned
      then (err (lock_error (lit "Failed to acquire write lock")), s)
      else if is_some (lookup key s.entries)
      then persisted o true s'
      else (ok false, s')
