-- ===== src/Security/Broker/Hmac.antt =====
-- broker.rs: `compute_hmac_sha256`.
use Prim.Native.Nat.{bit_xor}
use syntropy.Prelude.{
  ℕ, zero, suc, ◌≡◌, refl, ap, ◌≤◌, ◌-◌, [], ◌∷◌, ◌++◌, map, Text, length, ltb, if◌then◌else◌,
  arith, length-append, Bool-cases, inl, inr,
}
use syntropy.Security.Crypto.{Crypto}

-- `[0u8; n]`
abbrev pub zeros : ℕ → Text
zeros zero = []
zeros (suc n) = 0 ∷ zeros n

-- Copied into the front of 64 zero bytes.
abbrev pub padded : Text → Text
padded t = t ++ zeros (64 - length t)

module _ (c : Crypto) where
  unfoldable pub actual_key : Text → Text
  actual_key key = if ltb 64 (length key) then padded (c.sha256 key) else padded key

  unfoldable pub compute_hmac_sha256 : Text → Text → Text
  compute_hmac_sha256 key payload =
      let o_key_pad = map (λ b. bit_xor b 0x5c) (actual_key key) in
      let i_key_pad = map (λ b. bit_xor b 0x36) (actual_key key) in
      c.sha256 (o_key_pad ++ c.sha256 (i_key_pad ++ payload))

  length-zeros : (n : ℕ) → length (zeros n) ≡ n
  length-zeros zero = refl
  length-zeros (suc n) = ap suc (length-zeros n)

  length-padded : (t : Text) → length t ≤ 64 → length (padded t) ≡ 64
  length-padded t h =
      omega (arith, length-append t (zeros (64 - length t)), length-zeros (64 - length t))

  -- A key of any length fills the 64 bytes of a block exactly.
  pub length-actual_key : (key : Text) → length (actual_key key) ≡ 64
  unfolding actual_key
  length-actual_key key = elim (Bool-cases (ltb 64 (length key))) [
    | inl long ↦ rw long (length-padded (c.sha256 key) (omega (arith, c.sha256_length key)))
    | inr short ↦ rw short (length-padded key (ground arith))
  ]
