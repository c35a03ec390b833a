-- ===== src/Tests/KeyStoreTests.antt =====
-- keystore.rs on a store of one secret.
use syntropy.Prelude.{
  ℕ, ◌<◌, ◌^◌, sym, ap, false, none, Result, err, length, text_eq_iff, Bool-cases, inl, inr,
}
use syntropy.Security.KeyStore.Dpapi
use syntropy.Security.KeyStore.Dpapi.{Crypt32, DpapiKeyStore, Meets, set-reopens}
use syntropy.Prelude.{
  ◌≡◌, refl, true, some, [], ◌∷◌, Text, lit, text_eq, lookup, insert, remove, ok, if◌then◌else◌,
  arith,
}
use syntropy.Prelude.{IsBytes}
use syntropy.Security.KeyStore.Cipher.{
  xor_bytes, key_block, keystream_from, apply_keystream, enc_key, mac_key, compute_hmac,
  encrypt_payload, decrypt_payload,
}
use syntropy.Security.KeyStore.Cipher.RoundTrip.{decrypt_payload-encrypt_payload}
use syntropy.Security.KeyStore.File.{
  EncryptedFileKeyStore, fresh, persist, persisted, read_and_decrypt, set, get, delete,
}
use syntropy.Security.KeyStore.File.Durable.{IsDurable, set-IsDurable}
use syntropy.Tests.Samples.{toy_crypto}
use syntropy.Tests.SecuritySamples.{toy_json, one_secret, sixteen, outside}

program : Unit {0}
unfolding text_eq lookup insert remove xor_bytes key_block keystream_from apply_keystream enc_key
    mac_key compute_hmac encrypt_payload decrypt_payload persist persisted read_and_decrypt set get
    delete
program = tt

abbrev key_bytes : Text
key_bytes = lit "master"

abbrev empty_store : EncryptedFileKeyStore
empty_store = fresh key_bytes

abbrev filled : EncryptedFileKeyStore
filled = record {
  master_key = key_bytes;
  entries = one_secret;
  file = some (encrypt_payload toy_crypto (1 ∷ []) key_bytes sixteen sixteen);
}

abbrev emptied : EncryptedFileKeyStore
emptied = record {
  master_key = key_bytes;
  entries = [];
  file = some (encrypt_payload toy_crypto [] key_bytes sixteen sixteen);
}

set_runs : set toy_crypto toy_json outside (lit "k") (lit "v") empty_store ≡ (ok tt, filled)
unfolding program
set_runs = refl

delete_runs : delete toy_crypto toy_json outside (lit "k") filled ≡ (ok true, emptied)
unfolding program
delete_runs = refl

secret-IsBytes : IsBytes (lit "secret")
secret-IsBytes =
    (omega arith, (omega arith, (omega arith, (omega arith, (omega arith, (omega arith, tt))))))

abbrev sealed : Text
sealed = encrypt_payload toy_crypto (lit "secret") key_bytes sixteen sixteen

decrypt_payload-encrypt_payload_example :
    decrypt_payload toy_crypto sealed key_bytes ≡ ok (lit "secret")
decrypt_payload-encrypt_payload_example =
    decrypt_payload-encrypt_payload toy_crypto (lit "secret") key_bytes sixteen sixteen
      secret-IsBytes refl refl

set-IsDurable_example :
    IsDurable toy_crypto toy_json filled
    × ((k : Text)
        → lookup k one_secret ≡ (if text_eq (lit "k") k then some (lit "v") else lookup k []))
set-IsDurable_example =
    set-IsDurable toy_crypto toy_json outside (lit "k") (lit "v") empty_store filled refl refl
      set_runs

-- Data protection for one secret only.
abbrev only_v : Text → Result ℕ Text
only_v t = if text_eq t (lit "v") then ok (lit "v") else err 5

only_v-length : (t p : Text) → only_v t ≡ ok p → length p < 2 ^ 32
only_v-length t p h = elim (Bool-cases (text_eq t (lit "v"))) [
  | inl e ↦ let q : lit "v" ≡ p = ground (arith, e) in omega (arith, ap length q)
  | inr f ↦ absurd (ground (arith, f))
]

only_v-back : (t p : Text) → only_v t ≡ ok p → ◌≡◌ {A = Result ℕ Text} (ok (lit "v")) (ok t)
only_v-back t p h = elim (Bool-cases (text_eq t (lit "v"))) [
  | inl e ↦ ap ok (sym ((text_eq_iff t (lit "v")).0 e))
  | inr f ↦ absurd (ground (arith, f))
]

abbrev toy_crypt : Crypt32
toy_crypt = record {
  protect_data = only_v;
  unprotect_data = λ p. ok (lit "v");
  protect_data_length = only_v-length;
  unprotect_data-protect_data = only_v-back;
}

abbrev meets : Meets
meets = record { poisoned = false; write_error = none }

abbrev bare : DpapiKeyStore
bare = record { entries = []; file = none }

abbrev sealed_v : DpapiKeyStore
sealed_v = record { entries = one_secret; file = some (1 ∷ []) }

dpapi_sets : Dpapi.set toy_crypt toy_json meets (lit "k") (lit "v") bare ≡ (ok tt, sealed_v)
unfolding program Dpapi.set Dpapi.protect Dpapi.persisted Dpapi.persist
dpapi_sets = refl

set-reopens_example :
    (Dpapi.get toy_crypt toy_json meets (lit "k") sealed_v ≡ (
      if text_eq (lit "k") (lit "k")
      then ok (some (lit "v"))
      else Dpapi.get toy_crypt toy_json meets (lit "k") bare))
    × ((t : DpapiKeyStore) × (Dpapi.open_or_create toy_crypt toy_json meets (some (1 ∷ [])) ≡ ok t)
        × (Dpapi.get toy_crypt toy_json meets (lit "k") t
            ≡ Dpapi.get toy_crypt toy_json meets (lit "k") sealed_v))
set-reopens_example =
    set-reopens toy_crypt toy_json meets meets meets (lit "k") (lit "v") (lit "k") bare sealed_v 1
      [] (omega arith) refl dpapi_sets refl
