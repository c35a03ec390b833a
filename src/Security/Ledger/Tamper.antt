-- ===== src/Security/Ledger/Tamper.antt =====
-- ledger.rs: what the hash chain gives away about a changed table, and what it does not.
use syntropy.Prelude.{
  ℕ, ◌+◌, ◌≡◌, ◌≢◌, refl, sym, ◌∙◌, ap, true, Option, none, some, List, [], ◌∷◌, ◌++◌, map, arith,
  Text, length, inl, inr, take, ◌⊎◌, take-append,
}
use mathlib.Core.List.{append_assoc}
use syntropy.Security.Crypto.{Crypto, hex_encode-injective, sha256-eq}
use syntropy.Security.Ledger.Database.{I64, AuditEntry}
use syntropy.Security.Ledger.{
  next, verify_rows, recomputed, preimage, compute_entry_hash, IntegrityReport,
}
use syntropy.Security.Ledger.Chain.{
  IsChained, end_hash, verify_rows_sound, verify_rows_complete, IsChained-take,
}

-- The bytes that the hash of a row is taken of.
abbrev pub hashed : AuditEntry → Text
hashed e = preimage e.entry_id e.timestamp e.agent_id e.action_type e.payload_hash e.previous_hash

preimage-previous :
    (id : I64) (ts ag ac ph prev : Text) → take (length prev) (preimage id ts ag ac ph prev) ≡ prev
unfolding preimage
preimage-previous id ts ag ac ph prev = take-append prev _

preimage-shifted :
    (id : I64) (ts agent rest ac ph prev : Text)
    → preimage id ts agent (rest ++ ac) ph prev ≡ preimage id ts (agent ++ rest) ac ph prev
unfolding preimage
preimage-shifted id ts agent rest ac ph prev = simp append_assoc

module _ (c : Crypto) where
  -- The bytes that two rows are hashed from differ, and have the same SHA-256.
  abbrev pub IsCollision : AuditEntry → AuditEntry → Type 0
  IsCollision a b = (hashed a ≢ hashed b) × (c.sha256 (hashed a) ≡ c.sha256 (hashed b))

  -- At some place, the rows of the two tables collide.
  abbrev pub HaveCollision : List AuditEntry → List AuditEntry → Type 0
  HaveCollision [] ys = ⊥
  HaveCollision (x ∷ xs) [] = ⊥
  HaveCollision (x ∷ xs) (y ∷ ys) = IsCollision x y ⊎ HaveCollision xs ys

  recomputed-eq :
      (a b : AuditEntry) → recomputed c a ≡ recomputed c b → (hashed a ≡ hashed b) ⊎ IsCollision a b
  unfolding compute_entry_hash
  recomputed-eq a b h = sha256-eq c _ _ (hex_encode-injective c _ _ h)

  length-recomputed : (e : AuditEntry) → length (recomputed c e) ≡ 64
  unfolding compute_entry_hash
  length-recomputed e =
      omega (arith, c.hex_length (c.sha256 (hashed e)), c.sha256_length (hashed e))

  -- Two chains that start alike, are equally long and end in the same hash hash the same bytes
  -- row by row, or two rows that stand at the same place in the two are a collision of SHA-256.
  pub tamper_evident :
      (id : I64) (p q : Text) (xs ys : List AuditEntry)
      → length p ≡ 64
      → length q ≡ 64
      → IsChained c id p xs
      → IsChained c id q ys
      → length xs ≡ length ys
      → end_hash p xs ≡ end_hash q ys
      → ((p ≡ q) × (map hashed xs ≡ map hashed ys)) ⊎ HaveCollision xs ys
  tamper_evident id p q [] [] lp lq h k l e = inl (e, refl)
  tamper_evident id p q [] (y ∷ ys) lp lq h k l e = absurd (omega arith)
  tamper_evident id p q (x ∷ xs) [] lp lq h k l e = absurd (omega arith)
  tamper_evident id p q (x ∷ xs) (y ∷ ys) lp lq h k l e =
      elim (tamper_evident (next id) x.entry_hash y.entry_hash xs ys (rw h.2 (length-recomputed x))
        (rw k.2 (length-recomputed y)) h.3 k.3 (omega arith) e) [
          | inr found ↦ inr (inr found)
          | inl same ↦ elim (recomputed-eq x y (sym h.2 ∙ (same.0 ∙ k.2))) [
            | inr found ↦ inr (inl found)
            | inl eq ↦ inl (starts eq, cc (eq, same.1))
          ]
        ]
    where
      start_of :
          (e : AuditEntry) (r : Text) → e.previous_hash ≡ r → length r ≡ 64 → take 64 (hashed e) ≡ r
      start_of e r s n = cc (
          preimage-previous e.entry_id e.timestamp e.agent_id e.action_type e.payload_hash
            e.previous_hash)

      starts : hashed x ≡ hashed y → p ≡ q
      starts eq = sym (start_of x p h.1 lp) ∙ (ap (take 64) eq ∙ start_of y q k.1 lq)

  -- A scan that accepts a table accepts it without its last rows as well.
  pub verify_rows-take :
      (k : ℕ) (id : I64) (prev : Text) (rows : List AuditEntry)
      → (verify_rows c id prev 0 none rows).is_valid ≡ true
      → (verify_rows c id prev 0 none (take k rows)).is_valid ≡ true
  verify_rows-take k id prev rows h =
      ap (λ (r : IntegrityReport). r.is_valid)
        (verify_rows_complete c id prev 0 none (take k rows)
          (IsChained-take c k id prev rows (verify_rows_sound c id prev 0 none rows h)))

  -- The end of the agent's name moved to the front of the action's.
  abbrev pub shifted : AuditEntry → Text → Text → AuditEntry
  shifted e agent rest = record e { agent_id = agent; action_type = rest ++ e.action_type }

  recomputed-shifted :
      (e : AuditEntry) (agent rest : Text)
      → e.agent_id ≡ agent ++ rest
      → recomputed c (shifted e agent rest) ≡ recomputed c e
  unfolding compute_entry_hash
  recomputed-shifted e agent rest h =
      ap (λ t. c.hex_encode (c.sha256 t))
        (preimage-shifted e.entry_id e.timestamp agent rest e.action_type e.payload_hash
            e.previous_hash
          ∙ ap (λ a. preimage e.entry_id e.timestamp a e.action_type e.payload_hash e.previous_hash)
              (sym h))

  -- A scan makes the same report of a table in which the end of one row's agent id has been moved
  -- to the front of its action type.
  pub verify_rows-shifted :
      (id : I64) (prev : Text) (n : ℕ) (latest : Option Text) (xs : List AuditEntry)
      (e : AuditEntry) (ys : List AuditEntry) (agent rest : Text)
      → e.agent_id ≡ agent ++ rest
      → verify_rows c id prev n latest (xs ++ shifted e agent rest ∷ ys)
        ≡ verify_rows c id prev n latest (xs ++ e ∷ ys)
  unfolding verify_rows
  verify_rows-shifted id prev n latest [] e ys agent rest h = rw (recomputed-shifted e agent rest h)
  verify_rows-shifted id prev n latest (x ∷ xs) e ys agent rest h =
      rw (
        verify_rows-shifted (next id) x.entry_hash (n + 1) (some x.entry_hash) xs e ys agent rest h)
