-- ===== src/Security/KeyStore/Cipher.antt =====
-- keystore.rs: the encryption of the file keystore, a SHA-256 keystream with an authentication tag.
use Prim.Native.Nat.{bit_xor}
use syntropy.Prelude.{
  ℕ, zero, suc, ◌+◌, Bool, not, List, [], ◌∷◌, ◌++◌, Text, lit, text_eq, length, take, drop,
  be_bytes, ltb, Result, ok, err, ◌>>=◌, ◌>>◌, guard,
}
use syntropy.Security.Crypto.{Crypto}
pub mod RoundTrip

-- What `decrypt_payload` may refuse.
pub data CipherError : Type 0 where
  too_small bad_magic tag_mismatch : CipherError

-- `FILE_MAGIC`
abbrev pub file_magic : Text
file_magic = lit "SYNKSTOR1"

-- `for (byte, key_byte) in chunk.iter_mut().zip(block)`: bytes past the block stay.
unfoldable pub xor_bytes : Text → Text → Text
xor_bytes [] ks = []
xor_bytes (x ∷ xs) [] = x ∷ xs
xor_bytes (x ∷ xs) (k ∷ ks) = bit_xor x k ∷ xor_bytes xs ks

module _ (c : Crypto) where
  -- The block of the keystream for one counter.
  unfoldable pub key_block : Text → Text → ℕ → Text
  key_block enc_key nonce counter = c.sha256 (enc_key ++ (nonce ++ be_bytes counter))

  -- The loop over `data.chunks_mut(32)`, with fuel for the chunks that are left.
  unfoldable pub keystream_from : ℕ → ℕ → Text → Text → Text → Text
  keystream_from zero counter enc_key nonce text = []
  keystream_from (suc fuel) counter enc_key nonce [] = []
  keystream_from (suc fuel) counter enc_key nonce (x ∷ xs) =
      xor_bytes (take 32 (x ∷ xs)) (key_block enc_key nonce counter)
      ++ keystream_from fuel (counter + 1) enc_key nonce (drop 32 (x ∷ xs))

  -- A chunk takes at least one byte, so the length is fuel enough.
  unfoldable pub apply_keystream : Text → Text → Text → Text
  apply_keystream text enc_key nonce = keystream_from (length text) 0 enc_key nonce text

  unfoldable pub enc_key : Text → Text → Text
  enc_key master_key salt = c.sha256 (master_key ++ (salt ++ lit "encryption"))

  unfoldable pub mac_key : Text → Text → Text
  mac_key master_key salt = c.sha256 (master_key ++ (salt ++ lit "authentication"))

  unfoldable pub compute_hmac : Text → Text → Text → Text → Text
  compute_hmac key salt nonce ciphertext =
      let inner_hash = c.sha256 (key ++ (lit "inner-pad" ++ (salt ++ (nonce ++ ciphertext)))) in
      c.sha256 (key ++ (lit "outer-pad" ++ inner_hash))

  -- The salt and the nonce are the bytes of two random UUIDs.
  unfoldable pub encrypt_payload : Text → Text → Text → Text → Text
  encrypt_payload plaintext master_key salt nonce =
      let ciphertext = apply_keystream plaintext (enc_key master_key salt) nonce in
      let tag = compute_hmac (mac_key master_key salt) salt nonce ciphertext in
      file_magic ++ (salt ++ (nonce ++ (tag ++ ciphertext)))

  -- The fields at their offsets, once the length is checked.
  unfoldable pub decrypt_payload : Text → Text → Result CipherError Text
  decrypt_payload payload master_key = do
    let salt = take 16 (drop 9 payload)
    let nonce = take 16 (drop 25 payload)
    let expected_tag = take 32 (drop 41 payload)
    let ciphertext = drop 73 payload
    guard (not (ltb (length payload) 73)) too_small
    guard (text_eq (take 9 payload) file_magic) bad_magic
    guard (text_eq (compute_hmac (mac_key master_key salt) salt nonce ciphertext) expected_tag)
        tag_mismatch
    ok (apply_keystream ciphertext (enc_key master_key salt) nonce)

  -- `derive_key`
  unfoldable pub derive_key : Text → Text → Text
  derive_key passphrase salt = c.sha256 (passphrase ++ (salt ++ lit "syntropy-key-derivation-v1"))
