-- ===== src/Security/KeyStore.antt =====
-- keystore.rs: the trait `KeyStore`, and the store that lives in memory.
pub mod Cipher
pub mod InMemory
pub mod File
pub mod Dpapi
pub mod Laws
use syntropy.Prelude.{
  from_utf8, ℕ, ◌≡◌, refl, Bool, true, false, not, Option, none, some, Text, lit, [], text_eq, Dict,
  lookup, insert, remove, Result, ok, err, ◌>>=◌, ◌>>◌, guard, if◌then◌else◌, arith,
}

pub data KeyStoreError : Type 0 where
  not_found io serialization decryption_failed platform_error invalid_key : Text → KeyStoreError
  corrupted_store lock_error : Text → KeyStoreError

-- The trait: what a keystore of any kind does to its own state. A store may fail at any call.
pub record KeyStore : Type 1 where
  pub Store : Type 0
  pub set : Text → Text → Store → Result KeyStoreError (Unit {0}) × Store
  pub get : Text → Store → Result KeyStoreError (Option Text)
  pub delete : Text → Store → Result KeyStoreError Bool × Store

-- `is_some`
abbrev pub is_some {ℓ} : {A : Type ℓ} → Option A → Bool
is_some none = false
is_some (some a) = true

-- What a client may rely on, whatever the kind of the store: a call that succeeds changes the
-- entry of its key and no other, and `delete` says whether there was one.
pub record IsLawful (ks : KeyStore) : Type 0 where
  pub get-set :
      (key k secret : Text) (s s' : ks.Store) (o : Option Text)
      → ks.set key secret s ≡ (ok tt, s')
      → ks.get k s ≡ ok o
      → ks.get k s' ≡ ok (if text_eq key k then some secret else o)
  pub get-delete :
      (key k : Text) (s s' : ks.Store) (present : Bool) (o : Option Text)
      → ks.delete key s ≡ (ok present, s')
      → ks.get k s ≡ ok o
      → ks.get k s' ≡ ok (if text_eq key k then none else o)
  pub delete_present :
      (key : Text) (s s' : ks.Store) (present : Bool) (o : Option Text)
      → ks.delete key s ≡ (ok present, s')
      → ks.get key s ≡ ok o
      → present ≡ is_some o

-- The default methods of the trait.
module _ (ks : KeyStore) where
  unfoldable pub contains_key : Text → ks.Store → Result KeyStoreError Bool
  contains_key key s = do o ← ks.get key s; ok (is_some o)

  unfoldable pub set_str : Text → Text → ks.Store → Result KeyStoreError (Unit {0}) × ks.Store
  set_str key secret s = ks.set key secret s

  -- `String::from_utf8` of the bytes that are stored.
  abbrev pub decoded : Option Text → Result KeyStoreError (Option Text)
  decoded none = ok none
  decoded (some bytes) = elim (from_utf8 bytes) [
    | none ↦ err (decryption_failed (lit "Invalid UTF-8 sequence"))
    | some text ↦ ok (some text)
  ]

  unfoldable pub get_str : Text → ks.Store → Result KeyStoreError (Option Text)
  unfolding from_utf8
  get_str key s = do o ← ks.get key s; decoded o
