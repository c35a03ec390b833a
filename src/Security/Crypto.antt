-- ===== src/Security/Crypto.antt =====
-- What the program takes from the crates `sha2` and `hex`, with the documented laws that it relies
-- on: the length of a digest and that it consists of bytes, the length of a hexadecimal text, and that decoding undoes encoding.
use syntropy.Prelude.{
  ◌*◌, ◌≡◌, ap, ◌≢◌, Option, some, ◌⊎◌, inl, inr, arith, Text, IsBytes, length, text_eq,
  text_eq_iff, Bool-cases,
}

pub record Crypto : Type 0 where
  pub sha256 : Text → Text
  pub hex_encode : Text → Text
  pub hex_decode : Text → Option Text
  pub sha256_length : (t : Text) → length (sha256 t) ≡ 32
  pub sha256_bytes : (t : Text) → IsBytes (sha256 t)
  pub hex_length : (t : Text) → length (hex_encode t) ≡ 2 * length t
  pub hex_decode_encode : (t : Text) → hex_decode (hex_encode t) ≡ some t

module _ (c : Crypto) where
  pub hex_encode-injective : (a b : Text) → c.hex_encode a ≡ c.hex_encode b → a ≡ b
  hex_encode-injective a b h = cc (ap c.hex_decode h, c.hex_decode_encode a, c.hex_decode_encode b)

  -- Equal digests come from equal texts, or the two texts collide.
  pub sha256-eq :
      (a b : Text) → c.sha256 a ≡ c.sha256 b → (a ≡ b) ⊎ ((a ≢ b) × (c.sha256 a ≡ c.sha256 b))
  sha256-eq a b h = elim (Bool-cases (text_eq a b)) [
    | inl e ↦ inl ((text_eq_iff a b).0 e)
    | inr e ↦ inr ((λ p. ground (arith, text_eq_iff a b)), h)
  ]
