-- ===== src/Security/KeyStore/Laws.antt =====
-- keystore.rs: the laws of the trait, for the implementations.
use syntropy.Prelude.{
  arith, lookup-insert, lookup-remove, ◌≡◌, ap, ◌∙◌, true, Text, Option, some, ok, from_utf8,
  text_eq_refl, if◌then◌else◌,
}
use syntropy.Security.Crypto.{Crypto}
use syntropy.Security.KeyStore.{KeyStore, IsLawful, set_str, get_str, contains_key}
use syntropy.Security.KeyStore.InMemory
use syntropy.Security.KeyStore.InMemory.{InMemoryKeyStore}
use syntropy.Security.KeyStore.File
use syntropy.Security.KeyStore.File.{Json, Outside, EncryptedFileKeyStore, persist}

abbrev pub in_memory : KeyStore
in_memory = record {
  Store = InMemoryKeyStore;
  set = InMemory.set;
  get = InMemory.get;
  delete = InMemory.delete;
}

-- `InMemoryKeyStore` keeps the laws of the trait.
pub in_memory-IsLawful : IsLawful in_memory
unfolding InMemory.set InMemory.get InMemory.delete
in_memory-IsLawful = record {
  get-set = λ key k secret s s' o h g. ground (arith, lookup-insert key k secret s.entries);
  get-delete = λ key k s s' present o h g. ground (arith, lookup-remove key k s.entries);
  delete_present = λ key s s' present o h g. ground arith;
}

-- A file keystore whose calls all meet the same outside.
abbrev pub on_file : Crypto → Json → Outside → KeyStore
on_file c j o = record {
  Store = EncryptedFileKeyStore;
  set = File.set c j o;
  get = File.get c j o;
  delete = File.delete c j o;
}

-- `EncryptedFileKeyStore` keeps the laws of the trait, whatever its calls meet outside.
pub on_file-IsLawful : (c : Crypto) (j : Json) (o : Outside) → IsLawful (on_file c j o)
unfolding File.set File.get File.delete File.persisted
on_file-IsLawful c j o = record {
  get-set = λ key k secret s s' p h g. ground (arith, lookup-insert key k secret s.entries);
  get-delete = λ key k s s' present p h g. ground (arith, lookup-remove key k s.entries);
  delete_present = λ key s s' present p h g. ground arith;
}

-- In a keystore that keeps the laws, a text that `set_str` stored is what `get_str` returns.
pub get_str-set_str :
    (ks : KeyStore) (key text : Text) (s s' : ks.Store) (o : Option Text)
    → IsLawful ks
    → from_utf8 text ≡ some text
    → set_str ks key text s ≡ (ok tt, s')
    → ks.get key s ≡ ok o
    → (get_str ks key s' ≡ ok (some text)) × (contains_key ks key s' ≡ ok true)
unfolding set_str get_str contains_key
get_str-set_str ks key text s s' o laws valid h before =
    let found : ks.get key s' ≡ ok (some text) =
      laws.get-set key key text s s' o h before
      ∙ ap (λ b. ok (if b then some text else o)) (text_eq_refl key) in
    (ground (arith, found, valid), ground (arith, found))
