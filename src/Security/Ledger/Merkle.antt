-- ===== src/Security/Ledger/Merkle.antt =====
-- ledger.rs: `compute_merkle_root`.
use syntropy.Prelude.{
  length-append, ℕ, zero, suc, ◌+◌, ◌-◌, ◌*◌, sym, ◌∙◌, ◌/◌, ◌≤◌, ◌<◌, ◌≡◌, refl, ap, Bool, not,
  Option, none, some, List, [], ◌∷◌, ◌++◌, map, arith, Text, length, ltb, if◌then◌else◌, guard,
  Result, ok, ◌>>=◌, ◌>>◌,
}
use mathlib.Core.List.{head?, map-append}
use mathlib.Core.Option
use syntropy.Security.Crypto.{Crypto}
use syntropy.Security.Ledger.Database.{Sqlite, LedgerError, lock_error}

module _ (c : Crypto) where
  -- The inner loop over `current_level.chunks(2)`: an odd last node is hashed with itself.
  unfoldable pub next_level : List Text → List Text
  next_level [] = []
  next_level (a ∷ []) = c.sha256 (a ++ a) ∷ []
  next_level (a ∷ b ∷ level) = c.sha256 (a ++ b) ∷ next_level level

  -- `while current_level.len() > 1`, with fuel; `none` is out of fuel.
  unfoldable pub merkle_loop : ℕ → List Text → Option (List Text)
  merkle_loop zero level = none
  merkle_loop (suc fuel) level =
      let rest = merkle_loop fuel (next_level level) in
      if ltb 1 (length level) then rest else some level

  abbrev decoded : Text → Text
  decoded h = Option.get_or (c.hex_decode h) []

  -- The root of the hashes of a table; the outer `none` is out of fuel.
  unfoldable pub merkle_root : List Text → Option (Option Text)
  merkle_root [] = some none
  merkle_root (h ∷ hashes) =
      Option.map (λ level. Option.map c.hex_encode (head? level))
        (merkle_loop (length (h ∷ hashes)) (map decoded (h ∷ hashes)))

  unfoldable pub compute_merkle_root :
      (s : Sqlite) → Bool → s.Db → Result LedgerError (Option (Option Text))
  compute_merkle_root s poisoned db = do
    guard (not poisoned) lock_error
    hashes ← s.select_hashes db
    ok (merkle_root hashes)

  length-next_level : (level : List Text) → length (next_level level) ≡ (length level + 1) / 2
  unfolding next_level
  length-next_level [] = refl
  length-next_level (a ∷ []) = refl
  length-next_level (a ∷ b ∷ level) = omega (arith, length-next_level level)

  -- As many rounds as there are nodes are enough, and they leave one node.
  merkle_loop-total :
      (fuel : ℕ) (level : List Text)
      → 0 < length level
      → length level ≤ fuel
      → (r : Text) × (merkle_loop fuel level ≡ some (r ∷ []))
  unfolding merkle_loop
  merkle_loop-total fuel [] p h = absurd (omega arith)
  merkle_loop-total zero (a ∷ level) p h = absurd (omega arith)
  merkle_loop-total (suc fuel) (a ∷ []) p h = (a, refl)
  merkle_loop-total (suc fuel) (a ∷ b ∷ level) p h =
      let (r, e) =
        merkle_loop-total fuel (next_level (a ∷ b ∷ level))
          (omega (arith, length-next_level (a ∷ b ∷ level)))
          (omega (arith, length-next_level (a ∷ b ∷ level))) in
      (r, ground arith)

  length-map : (hs : List Text) → length (map decoded hs) ≡ length hs
  length-map [] = refl
  length-map (h ∷ hs) = ap suc (length-map hs)

  -- Every table that is not empty has a root: the loop ends within its fuel.
  pub merkle_root-total :
      (h : Text) (hashes : List Text) → (r : Text) × (merkle_root (h ∷ hashes) ≡ some (some r))
  unfolding merkle_root
  merkle_root-total h hashes =
      let (r, e) =
        merkle_loop-total (length (h ∷ hashes)) (map decoded (h ∷ hashes)) (omega arith)
          (omega (arith, length-map hashes)) in
      (c.hex_encode r, rw e)

  next_level-twice :
      (level : List Text) (a : Text) (k : ℕ)
      → length level ≡ 2 * k
      → next_level (level ++ a ∷ []) ≡ next_level (level ++ a ∷ a ∷ [])
  unfolding next_level
  next_level-twice [] a k h = refl
  next_level-twice (x ∷ []) a k h = absurd (omega arith)
  next_level-twice (x ∷ y ∷ level) a k h =
      ap (◌∷◌ (c.sha256 (x ++ y))) (next_level-twice level a (k - 1) (omega arith))

  -- More fuel than enough changes nothing.
  merkle_loop-more :
      (fuel : ℕ) (level l : List Text)
      → merkle_loop fuel level ≡ some l
      → merkle_loop (suc fuel) level ≡ some l
  unfolding merkle_loop
  merkle_loop-more zero level l h = absurd (ground arith)
  merkle_loop-more (suc fuel) level l h = ground (arith, merkle_loop-more fuel (next_level level) l)

  -- The first round already makes the two levels one.
  merkle_loop-twice :
      (fuel : ℕ) (x y : Text) (level : List Text) (a : Text) (k : ℕ)
      → length level ≡ 2 * k
      → merkle_loop (suc fuel) (x ∷ y ∷ (level ++ a ∷ []))
        ≡ merkle_loop (suc fuel) (x ∷ y ∷ (level ++ a ∷ a ∷ []))
  unfolding merkle_loop
  merkle_loop-twice fuel x y level a k h =
      ground (arith, next_level-twice (x ∷ y ∷ level) a (k + 1) (omega arith))

  root_of : ℕ → List Text → Option (Option Text)
  root_of fuel level = Option.map (λ l. Option.map c.hex_encode (head? l)) (merkle_loop fuel level)

  -- A table with an odd number of at least three entries has the root of the table in which the
  -- last hash stands twice.
  pub merkle_root-twice :
      (g h : Text) (hashes : List Text) (a : Text) (k : ℕ)
      → length hashes ≡ 2 * k
      → merkle_root (g ∷ h ∷ (hashes ++ a ∷ [])) ≡ merkle_root (g ∷ h ∷ (hashes ++ a ∷ a ∷ []))
  unfolding merkle_root root_of
  merkle_root-twice g h hashes a k e =
      let one : List Text = decoded g ∷ decoded h ∷ (map decoded hashes ++ decoded a ∷ []) in
      let fuel : ℕ = suc (suc (length hashes + 1)) in
      let (r, runs) =
        merkle_loop-total fuel one (omega arith)
          (omega (arith, length-map hashes, length-append (map decoded hashes) (decoded a ∷ []))) in
      let same =
        merkle_loop-twice fuel (decoded g) (decoded h) (map decoded hashes) (decoded a) k
          (omega (arith, length-map hashes)) in
      let more = merkle_loop-more fuel one (r ∷ []) runs in
      let m1 : map decoded (hashes ++ a ∷ []) ≡ map decoded hashes ++ decoded a ∷ [] =
        map-append decoded hashes (a ∷ []) in
      let m2 : map decoded (hashes ++ a ∷ a ∷ [])
          ≡ map decoded hashes ++ decoded a ∷ decoded a ∷ [] =
        map-append decoded hashes (a ∷ a ∷ []) in
      let n1 : length (hashes ++ a ∷ []) ≡ length hashes + 1 = length-append hashes _ in
      let n2 : length (hashes ++ a ∷ a ∷ []) ≡ suc (length hashes + 1) =
        omega (arith, length-append hashes (a ∷ a ∷ [])) in
      rw (m1, m2, n1, n2)
        (ap (λ l. Option.map (λ m. Option.map c.hex_encode (head? m)) l)
          (runs ∙ sym (sym same ∙ more)))
