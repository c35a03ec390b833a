-- ===== src/Security/KeyStore/File/Durable.antt =====
-- keystore.rs: what the file keystore keeps across a restart, and what a failed write leaves.
use syntropy.Prelude.{
  Bool-cases, Result-cases, inl, inr, lookup-insert_self, ◌≡◌, refl, sym, ◌∙◌, Bool, true, false,
  not, none, some, Text, Dict, lookup, insert, remove, ok, err, guard, if◌then◌else◌, length, arith,
  with_ok, text_eq, text_eq_iff, lookup-insert, lookup-remove,
}
use syntropy.Security.Crypto.{Crypto}
use syntropy.Security.KeyStore.{KeyStoreError, is_some}
use syntropy.Security.KeyStore.Cipher.{encrypt_payload}
use syntropy.Security.KeyStore.Cipher.RoundTrip.{decrypt_payload-encrypt_payload}
use syntropy.Security.KeyStore.File.{
  Json, EncryptedFileKeyStore, Outside, persist, persisted, read_and_decrypt, set, get, delete,
}

module _ (c : Crypto) (j : Json) where
  -- The file of the store opens under its key to the entries that it has in memory.
  abbrev pub IsDurable : EncryptedFileKeyStore → Type 0
  IsDurable s =
      (contents : Text) × (m : Dict Text) × (s.file ≡ some contents)
      × (read_and_decrypt c j contents s.master_key ≡ ok m)
      × ((k : Text) → lookup k m ≡ lookup k s.entries)

  persist-IsDurable :
      (o : Outside) (s : EncryptedFileKeyStore) (contents : Text)
      → length o.salt ≡ 16
      → length o.nonce ≡ 16
      → persist c j o s ≡ ok contents
      → IsDurable (record s { file = some contents })
  unfolding persist read_and_decrypt
  persist-IsDurable o s contents hs hn h = with_ok (guard (not o.poisoned) _) _ h λ u h0 k0.
      with_ok (j.to_vec s.entries) _ k0 λ t h1 k1.
        let (m, parsed, same) = j.from_slice_to_vec s.entries t h1 in
        let written : encrypt_payload c t s.master_key o.salt o.nonce ≡ contents = ground arith in
        let opened =
          decrypt_payload-encrypt_payload c t s.master_key o.salt o.nonce
            (j.to_vec_bytes s.entries t h1) hs hn in
        (contents, m, refl, rw (← written) (rw opened parsed), same)

  persisted-ok :
      {A : Type 0} (o : Outside) (a b : A) (s s' : EncryptedFileKeyStore)
      → persisted c j o a s ≡ (ok b, s')
      → (contents : Text) × (persist c j o s ≡ ok contents)
        × (record s { file = some contents } ≡ s')
        × (b ≡ a)
  unfolding persisted
  persisted-ok o a b s s' h = elim (Result-cases (persist c j o s)) [
    | inl (contents, p) ↦ (contents, p, ground arith, ground arith)
    | inr (e, p) ↦ absurd (ground arith)
  ]

  -- A `set` that succeeds puts the secret under its key, leaves the other keys, and leaves a file
  -- that opens to the same entries.
  pub set-IsDurable :
      (o : Outside) (key secret : Text) (s s' : EncryptedFileKeyStore)
      → length o.salt ≡ 16
      → length o.nonce ≡ 16
      → set c j o key secret s ≡ (ok tt, s')
      → IsDurable s'
        × ((k : Text)
            → lookup k s'.entries ≡ (if text_eq key k then some secret else lookup k s.entries))
  unfolding set
  set-IsDurable o key secret s s' hs hn h =
      let after : EncryptedFileKeyStore = record s { entries = insert key secret s.entries } in
      let p : persisted c j o tt after ≡ (ok tt, s') = ground arith in
      let (contents, q, e, same) = persisted-ok o tt tt after s' p in
      rw (← e)
        (persist-IsDurable o after contents hs hn q, λ k. lookup-insert key k secret s.entries)

  -- A `set` whose write fails reports the error and leaves the file, and yet the new secret is in
  -- memory, where the next `get` of the key finds it.
  pub set_write_error :
      (o : Outside) (key secret : Text) (s : EncryptedFileKeyStore) (e : KeyStoreError)
      → o.poisoned ≡ false
      → persist c j o (record s { entries = insert key secret s.entries }) ≡ err e
      → ((set c j o key secret s).0 ≡ err e)
        × ((set c j o key secret s).1.file ≡ s.file)
        × (get c j o key (set c j o key secret s).1 ≡ ok (some secret))
  unfolding set get persisted
  set_write_error o key secret s e h p = ground (arith, lookup-insert_self key secret s.entries)

  -- A `delete` says whether the key was there; if it succeeds the key is gone, the other keys stay,
  -- and a store whose file agreed with its memory still has such a file.
  pub delete-IsDurable :
      (o : Outside) (key : Text) (s s' : EncryptedFileKeyStore) (present : Bool)
      → length o.salt ≡ 16
      → length o.nonce ≡ 16
      → IsDurable s
      → delete c j o key s ≡ (ok present, s')
      → IsDurable s'
        × (present ≡ is_some (lookup key s.entries))
        × ((k : Text) → lookup k s'.entries ≡ (if text_eq key k then none else lookup k s.entries))
  unfolding delete
  delete-IsDurable o key s s' present hs hn d h =
      elim (Bool-cases (is_some (lookup key s.entries))) [
        | inl there ↦
            let p : persisted c j o true after ≡ (ok present, s') = ground arith in
            let (contents, q, e, b) = persisted-ok o true present after s' p in
            rw (← e) (
              persist-IsDurable o after contents hs hn q,
              b ∙ sym there,
              λ k. lookup-remove key k s.entries,
            )
        | inr absent ↦
            let e : after ≡ s' = ground arith in
            let (contents, m, file, opened, same) = d in
            rw (← e) (
              (contents, m, file, opened, λ k. same k ∙ sym (lookup-remove_absent key k absent)),
              ground arith,
              λ k. lookup-remove key k s.entries,
            )
      ]
    where
      after : EncryptedFileKeyStore
      after = record s { entries = remove key s.entries }

      lookup-remove_absent :
          (key k : Text)
          → is_some (lookup key s.entries) ≡ false
          → lookup k (remove key s.entries) ≡ lookup k s.entries
      lookup-remove_absent key k h =
          ground (arith, lookup-remove key k s.entries, text_eq_iff key k)
