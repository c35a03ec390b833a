-- ===== src/Exec/Jail/Containment.antt =====
-- jail.rs: the paths that the jail gives out.
use syntropy.Prelude.{
  Option-cases, ℕ, zero, suc, ◌≡◌, ◌⊎◌, inl, inr, ◌≤◌, refl, sym, true, Option, none, some, List,
  [], ◌∷◌, Text, ok, ◌>>◌, guard, with_ok, Bool-cases, ok-injective, arith,
}
use syntropy.Exec.Jail.{
  FileSystem, WorkspaceJail, JailError, from_io, normalize_path_prefix, is_path_within,
  is_contained, walk_up, push_all, target_of, resolve_new, resolve_existing, resolve_path,
  validate_cwd, outside_workspace,
}

module _ {fs : FileSystem} where
  root-contained : (j : WorkspaceJail fs) → is_contained j j.canonical_root ≡ true
  unfolding is_contained is_path_within
  root-contained j = ground (arith, fs.starts_with_self (normalize_path_prefix fs j.canonical_root))

  -- A path that passes the last check.
  checked :
      (j : WorkspaceJail fs) (p q : fs.PathBuf)
      → (guard {E = JailError fs} (is_contained j p) (outside_workspace p j.canonical_root) >> ok p)
        ≡ ok q
      → is_contained j q ≡ true
  checked j p q h = ground arith

  resolve_existing-contained :
      (j : WorkspaceJail fs) (target p : fs.PathBuf)
      → resolve_existing j target ≡ ok p
      → is_contained j p ≡ true
  unfolding resolve_existing
  resolve_existing-contained j target p h =
      with_ok (from_io fs (fs.canonicalize target)) _ h λ c e rest. checked j c p rest

  resolve_new-contained :
      (j : WorkspaceJail fs) (target p : fs.PathBuf)
      → resolve_new j target ≡ ok p
      → is_contained j p ≡ true
  unfolding resolve_new
  resolve_new-contained j target p h =
      let walked = walk_up fs (fs.depth target) target [] in
      with_ok (guard (fs.exists walked.0) _) _ h λ u e1 h1.
        with_ok (from_io fs (fs.canonicalize walked.0)) _ h1 λ a e2 h2.
          with_ok (guard (is_contained j a) _) _ h2 λ u' e3 h3.
            with_ok (push_all (outside_workspace target j.canonical_root) a walked.1) _ h3
              λ r e4 h4. checked j r p h4

  -- Every path that the jail resolves, existing or not, relative or not, is its root, below its root
  -- or below an allowed path.
  pub resolve_path-contained :
      (j : WorkspaceJail fs) (path p : fs.PathBuf)
      → resolve_path j path ≡ ok p
      → is_contained j p ≡ true
  unfolding resolve_path
  resolve_path-contained j path p h = elim (Bool-cases (fs.is_empty path)) [
    | inl t ↦ let e : j.canonical_root ≡ p = ground arith in rw (← e) (root-contained j)
    | inr f ↦ elim (Bool-cases (fs.exists (target_of j path))) [
      | inl t ↦ resolve_existing-contained j (target_of j path) p (ground arith)
      | inr f' ↦ resolve_new-contained j (target_of j path) p (ground arith)
    ]
  ]

  -- A working directory is the prefix-free form of the root or of a directory inside the jail.
  pub validate_cwd-contained :
      (j : WorkspaceJail fs) (cwd : Option fs.PathBuf) (p : fs.PathBuf)
      → validate_cwd j cwd ≡ ok p
      → (q : fs.PathBuf) × (p ≡ normalize_path_prefix fs q)
        × (is_contained j q ≡ true)
        × ((cwd ≡ none) ⊎ (fs.is_dir q ≡ true))
  unfolding validate_cwd
  validate_cwd-contained j none p h =
      (j.canonical_root, sym (ok-injective h), root-contained j, inl refl)
  validate_cwd-contained j (some dir) p h = with_ok (resolve_path j dir) _ h λ r e rest.
      let contained = resolve_path-contained j dir r e in
      let is_a_dir : fs.is_dir r ≡ true = ground arith in (r, ground arith, contained, inr is_a_dir)

module _ (fs : FileSystem) where
  -- The walk ends for a reason of its own, not for want of fuel: at a path that exists, that has no
  -- name, or that has no parent.
  pub walk_up_total :
      (fuel : ℕ) (current : fs.PathBuf) (names : List Text)
      → fs.depth current ≤ fuel
      → (fs.exists (walk_up fs fuel current names).0 ≡ true)
        ⊎ (fs.file_name (walk_up fs fuel current names).0 ≡ none)
        ⊎ (fs.parent (walk_up fs fuel current names).0 ≡ none)
  unfolding walk_up
  walk_up_total zero current names enough = elim (Option-cases (fs.parent current)) [
    | inl e ↦ inr (inr e)
    | inr (up, e) ↦ absurd (omega (arith, fs.parent_depth current up e))
  ]
  walk_up_total (suc fuel) current names enough = elim (Bool-cases (fs.exists current)) [
    | inl t ↦ inl (rw (t, t) refl)
    | inr f ↦ elim (Option-cases (fs.file_name current)) [
      | inl e ↦ inr (inl (rw f (rw (e, e) refl)))
      | inr (name, e) ↦ elim (Option-cases (fs.parent current)) [
        | inl e' ↦ inr (inr (rw f (rw e (rw (e', e') refl))))
        | inr (up, e') ↦ rw f (
            rw e (
              rw e' (
                walk_up_total fuel up (name ∷ names)
                  (omega (arith, fs.parent_depth current up e')))))
      ]
    ]
  ]
