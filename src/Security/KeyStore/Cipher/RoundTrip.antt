-- ===== src/Security/KeyStore/Cipher/RoundTrip.antt =====
-- keystore.rs: encryption and decryption together.
use Prim.Native.Nat.{bit_xor}
use syntropy.Prelude.{
  if◌then◌else◌, ◌>>◌, guard, not, take_of_length-le, text_eq_refl, text_eq_iff, ok, inl, inr,
  drop-drop, false, Bool-cases, ltb, leb, take-append-drop, min, ℕ, zero, suc, ◌+◌, ◌≤◌, ◌<◌, ◌≡◌,
  refl, sym, ap, ◌∙◌, Bool, true, [], ◌∷◌, ◌++◌, arith, Text, length, take, drop, length-append,
  length-take, length-drop, take-append, drop-append, IsBytes, ◌==◌, ==_iff,
}
use mathlib.Core.List.{append-nil}
use syntropy.Security.Crypto.{Crypto}
use syntropy.Security.KeyStore.Cipher.{
  too_small, bad_magic, tag_mismatch, mac_key, enc_key, compute_hmac, decrypt_payload,
  encrypt_payload, apply_keystream, file_magic, xor_bytes, key_block, keystream_from,
}

-- The test passes for each byte smaller than the bound.
passes : (ℕ → Bool) → ℕ → Bool
passes test zero = true
passes test (suc bound) = if passes test bound then test bound else false

passes_at : (test : ℕ → Bool) (bound k : ℕ) → k < bound → passes test bound ≡ true → test k ≡ true
unfolding passes
passes_at test (suc bound) k small checked = ground (arith, passes_at test bound k)
passes_at test zero k small checked = absurd (omega arith)

abbrev undoes : ℕ → ℕ → Bool
undoes k x = bit_xor (bit_xor x k) k == x

-- All pairs of bytes, by evaluation.
xor_table : passes (λ k. passes (undoes k) 256) 256 ≡ true
unfolding passes
xor_table = refl

bit_xor-bit_xor : (x k : ℕ) → x < 256 → k < 256 → bit_xor (bit_xor x k) k ≡ x
bit_xor-bit_xor x k hx hk =
    let row = passes_at (λ k. passes (undoes k) 256) 256 k hk xor_table in
    (==_iff _ x).0 (passes_at (undoes k) 256 x hx row)

xor_bytes-xor_bytes : (xs ks : Text) → IsBytes xs → IsBytes ks → xor_bytes (xor_bytes xs ks) ks ≡ xs
unfolding xor_bytes
xor_bytes-xor_bytes [] ks h k = refl
xor_bytes-xor_bytes (x ∷ xs) [] h k = refl
xor_bytes-xor_bytes (x ∷ xs) (y ∷ ks) h k =
    cc (bit_xor-bit_xor x y h.0 k.0, xor_bytes-xor_bytes xs ks h.1 k.1)

length-xor_bytes : (xs ks : Text) → length (xor_bytes xs ks) ≡ length xs
unfolding xor_bytes
length-xor_bytes [] ks = refl
length-xor_bytes (x ∷ xs) [] = refl
length-xor_bytes (x ∷ xs) (y ∷ ks) = ap suc (length-xor_bytes xs ks)

IsBytes-take : (n : ℕ) (t : Text) → IsBytes t → IsBytes (take n t)
IsBytes-take zero t h = tt
IsBytes-take (suc n) [] h = tt
IsBytes-take (suc n) (x ∷ t) h = (h.0, IsBytes-take n t h.1)

IsBytes-drop : (n : ℕ) (t : Text) → IsBytes t → IsBytes (drop n t)
IsBytes-drop zero t h = h
IsBytes-drop (suc n) [] h = tt
IsBytes-drop (suc n) (x ∷ t) h = IsBytes-drop n t h.1

drop_of_length-le : (n : ℕ) (t : Text) → length t ≤ n → drop n t ≡ []
drop_of_length-le zero [] h = refl
drop_of_length-le zero (x ∷ t) h = absurd (omega arith)
drop_of_length-le (suc n) [] h = refl
drop_of_length-le (suc n) (x ∷ t) h = drop_of_length-le n t (omega arith)

-- Cutting two parts apart where the first has `n` bytes.
pub take-append_at : (n : ℕ) (a b : Text) → length a ≡ n → take n (a ++ b) ≡ a
take-append_at n a b h = ap (λ k. take k (a ++ b)) (sym h) ∙ take-append a b

pub drop-append_at : (n : ℕ) (a b : Text) → length a ≡ n → drop n (a ++ b) ≡ b
drop-append_at n a b h = ap (λ k. drop k (a ++ b)) (sym h) ∙ drop-append a b

ltb-false : (a b : ℕ) → ltb a b ≡ false → b ≤ a
ltb-false a b h = ground arith

-- The three checks that a successful decryption has passed.
guards-ok :
    (small magic tag : Bool) (r : Text) {p : Text}
    → (do guard (not small) too_small; guard magic bad_magic; guard tag tag_mismatch; ok r) ≡ ok p
    → (small ≡ false) × (magic ≡ true) × (tag ≡ true)
guards-ok small magic tag r h = ground arith

module _ (c : Crypto) where
  keystream_from-nil : (fuel n : ℕ) (key nonce : Text) → keystream_from c fuel n key nonce [] ≡ []
  unfolding keystream_from
  keystream_from-nil zero n key nonce = refl
  keystream_from-nil (suc fuel) n key nonce = refl

  length-keystream_from :
      (fuel n : ℕ) (key nonce t : Text)
      → length t ≤ fuel
      → length (keystream_from c fuel n key nonce t) ≡ length t
  unfolding keystream_from
  length-keystream_from zero n key nonce [] h = refl
  length-keystream_from zero n key nonce (x ∷ t) h = absurd (omega arith)
  length-keystream_from (suc fuel) n key nonce [] h = refl
  length-keystream_from (suc fuel) n key nonce (x ∷ t) h = omega (
    arith,
    length-append (xor_bytes (take 32 (x ∷ t)) (key_block c key nonce n))
        (keystream_from c fuel (n + 1) key nonce (drop 32 (x ∷ t))),
    length-xor_bytes (take 32 (x ∷ t)) (key_block c key nonce n),
    length-take 32 (x ∷ t),
    length-drop 32 (x ∷ t),
    length-keystream_from fuel (n + 1) key nonce (drop 32 (x ∷ t))
        (omega (arith, length-drop 32 (x ∷ t))),
  )

  keystream_from-step :
      (fuel n : ℕ) (key nonce t : Text)
      → keystream_from c (suc fuel) n key nonce t
        ≡ xor_bytes (take 32 t) (key_block c key nonce n)
          ++ keystream_from c fuel (n + 1) key nonce (drop 32 t)
  unfolding keystream_from xor_bytes
  keystream_from-step fuel n key nonce [] = sym (keystream_from-nil fuel (n + 1) key nonce)
  keystream_from-step fuel n key nonce (x ∷ t) = refl

  -- The first chunk of a text that has been encrypted is the first chunk encrypted.
  cut_again :
      (fuel n : ℕ) (key nonce t : Text)
      → let a = xor_bytes (take 32 t) (key_block c key nonce n) in
        let r = keystream_from c fuel (n + 1) key nonce (drop 32 t) in
        (take 32 (a ++ r) ≡ a) × (drop 32 (a ++ r) ≡ r)
  cut_again fuel n key nonce t = elim (Bool-cases (leb 32 (length t))) [
    | inl long ↦ (take-append_at 32 a r (full long), drop-append_at 32 a r (full long))
    | inr short ↦
        let e : r ≡ [] =
          rw (drop_of_length-le 32 t (ground arith)) (keystream_from-nil fuel (n + 1) key nonce) in
        rw (e, append-nil)
          (
            take_of_length-le 32 a (ground (arith, size)),
            drop_of_length-le 32 a (ground (arith, size)),
          )
  ]
    where
      a : Text
      a = xor_bytes (take 32 t) (key_block c key nonce n)

      r : Text
      r = keystream_from c fuel (n + 1) key nonce (drop 32 t)

      size : length a ≡ min 32 (length t)
      size = length-xor_bytes (take 32 t) _ ∙ length-take 32 t

      full : leb 32 (length t) ≡ true → length a ≡ 32
      full h = ground (arith, size)

  keystream_from-twice :
      (fuel n : ℕ) (key nonce t : Text)
      → IsBytes t
      → length t ≤ fuel
      → keystream_from c fuel n key nonce (keystream_from c fuel n key nonce t) ≡ t
  keystream_from-twice fuel n key nonce [] b h =
      rw (keystream_from-nil fuel n key nonce) (keystream_from-nil fuel n key nonce)
  keystream_from-twice zero n key nonce (x ∷ t) b h = absurd (omega arith)
  keystream_from-twice (suc fuel) n key nonce (x ∷ t) b h =
      rw (keystream_from-step fuel n key nonce (x ∷ t)) (
        rw (keystream_from-step fuel n key nonce _) (
          rw
            (
              (cut_again fuel n key nonce (x ∷ t)).0,
              (cut_again fuel n key nonce (x ∷ t)).1,
              xor_bytes-xor_bytes (take 32 (x ∷ t)) (key_block c key nonce n)
                  (IsBytes-take 32 (x ∷ t) b) (block n),
              keystream_from-twice fuel (n + 1) key nonce (drop 32 (x ∷ t))
                  (IsBytes-drop 32 (x ∷ t) b) (omega (arith, length-drop 32 (x ∷ t))),
            )
            (take-append-drop 32 (x ∷ t))))
    where
      block : (k : ℕ) → IsBytes (key_block c key nonce k)
      block k = unfold key_block in c.sha256_bytes _

  apply_keystream-twice :
      (t key nonce : Text)
      → IsBytes t
      → apply_keystream c (apply_keystream c t key nonce) key nonce ≡ t
  unfolding apply_keystream
  apply_keystream-twice t key nonce b =
      rw (length-keystream_from (length t) 0 key nonce t (omega arith))
        (keystream_from-twice (length t) 0 key nonce t b (omega arith))

  -- The five fields of a file, and where `decrypt_payload` looks for them.
  abbrev pub sealed : Text → Text → Text → Text → Text
  sealed salt nonce tag ciphertext = file_magic ++ (salt ++ (nonce ++ (tag ++ ciphertext)))

  sealed-fields :
      (salt nonce tag text : Text)
      → length salt ≡ 16
      → length nonce ≡ 16
      → length tag ≡ 32
      → (take 9 (sealed salt nonce tag text) ≡ file_magic)
        × (take 16 (drop 9 (sealed salt nonce tag text)) ≡ salt)
        × (take 16 (drop 25 (sealed salt nonce tag text)) ≡ nonce)
        × (take 32 (drop 41 (sealed salt nonce tag text)) ≡ tag)
        × (drop 73 (sealed salt nonce tag text) ≡ text)
        × (ltb (length (sealed salt nonce tag text)) 73 ≡ false)
  sealed-fields salt nonce tag text hs hn ht = (
    refl,
    take-append_at 16 salt _ hs,
    ap (take 16) d16 ∙ take-append_at 16 nonce _ hn,
    ap (take 32) d32 ∙ take-append_at 32 tag text ht,
    d64,
    ground (
      arith,
      length-append salt (nonce ++ (tag ++ text)),
      length-append nonce (tag ++ text),
      length-append tag text,
    ),
  )
    where
      fields : Text
      fields = salt ++ (nonce ++ (tag ++ text))

      d16 : drop 16 fields ≡ nonce ++ (tag ++ text)
      d16 = drop-append_at 16 salt _ hs

      d32 : drop 32 fields ≡ tag ++ text
      d32 = sym (drop-drop 16 16 fields) ∙ (ap (drop 16) d16 ∙ drop-append_at 16 nonce _ hn)

      d64 : drop 64 fields ≡ text
      d64 = sym (drop-drop 32 32 fields) ∙ (ap (drop 32) d32 ∙ drop-append_at 32 tag text ht)

  -- What `decrypt_payload` does with the fields of a file.
  decrypt_fields :
      (payload master_key salt nonce tag text : Text)
      → take 9 payload ≡ file_magic
      → take 16 (drop 9 payload) ≡ salt
      → take 16 (drop 25 payload) ≡ nonce
      → take 32 (drop 41 payload) ≡ tag
      → drop 73 payload ≡ text
      → ltb (length payload) 73 ≡ false
      → compute_hmac c (mac_key c master_key salt) salt nonce text ≡ tag
      → decrypt_payload c payload master_key
        ≡ ok (apply_keystream c text (enc_key c master_key salt) nonce)
  unfolding decrypt_payload
  decrypt_fields payload mk salt nonce tag text h1 h2 h3 h4 h5 h6 h7 =
      rw (h1, h2, h3, h4, h5, h6, h7, text_eq_refl, text_eq_refl)

  -- With a salt and a nonce of 16 bytes, decrypting what was encrypted under the same key gives
  -- the plaintext back.
  pub decrypt_payload-encrypt_payload :
      (plaintext master_key salt nonce : Text)
      → IsBytes plaintext
      → length salt ≡ 16
      → length nonce ≡ 16
      → decrypt_payload c (encrypt_payload c plaintext master_key salt nonce) master_key
        ≡ ok plaintext
  unfolding encrypt_payload
  decrypt_payload-encrypt_payload plaintext mk salt nonce b hs hn =
      let f = sealed-fields salt nonce tag text hs hn (unfold compute_hmac in c.sha256_length _) in
      decrypt_fields (sealed salt nonce tag text) mk salt nonce tag text f.0 f.1 f.2 f.3 f.4 f.5
        refl
      ∙ ap ok (apply_keystream-twice plaintext (enc_key c mk salt) nonce b)
    where
      text : Text
      text = apply_keystream c plaintext (enc_key c mk salt) nonce

      tag : Text
      tag = compute_hmac c (mac_key c mk salt) salt nonce text

  -- A file that is decrypted begins with the magic bytes and carries the tag of its own salt,
  -- nonce and ciphertext under the key.
  pub decrypt_payload-authentic :
      (payload master_key plaintext : Text)
      → decrypt_payload c payload master_key ≡ ok plaintext
      → (73 ≤ length payload)
        × (take 9 payload ≡ file_magic)
        × (take 32 (drop 41 payload)
            ≡ compute_hmac c
                (mac_key c master_key (take 16 (drop 9 payload)))
                (take 16 (drop 9 payload))
                (take 16 (drop 25 payload))
                (drop 73 payload))
  unfolding decrypt_payload
  decrypt_payload-authentic payload mk plaintext h =
      let (size, magic, tag) = guards-ok (ltb (length payload) 73) _ _ _ h in
      (ltb-false (length payload) 73 size, (text_eq_iff _ _).0 magic, sym ((text_eq_iff _ _).0 tag))
