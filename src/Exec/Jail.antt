-- ===== src/Exec/Jail.antt =====
-- jail.rs: `WorkspaceJail`, the jail of an agent's paths (outside Windows).
pub mod Containment
use syntropy.Prelude.{
  Option-cases, ◌^◌, ℕ, zero, suc, ◌≡◌, ◌≢◌, ◌↔◌, ◌⊎◌, inl, inr, ◌≤◌, ◌<◌, ◌+◌, ◌-◌, ◌*◌, ◌%◌, ◌/◌,
  min, max, refl, sym, ap, ◌∙◌, Bool, true, false, not, ◌&&◌, ◌||◌, Option, none, some, List, [],
  ◌∷◌, ◌++◌, map, Text, lit, text_eq, text_eq_iff, text_eq_refl, Dict, lookup, insert, remove,
  Result, ok, err, ◌>>=◌, ◌>>◌, guard, with_ok, Result-cases, Bool-cases, ok-injective,
  if◌then◌else◌, length, take, drop, get_elem?, ltb, leb, ◌==◌, ==_iff, lookup-insert,
  lookup-remove, lookup-insert_self, dict_laws, arith,
}
use syntropy.Prelude.{strip_prefix?}

-- What the jail takes from `std::path` and the file system. A path is at least as deep as its
-- number of parents.
pub record FileSystem : Type 1 where
  pub PathBuf : Type 0
  pub is_empty : PathBuf → Bool
  pub is_relative : PathBuf → Bool
  pub join : PathBuf → PathBuf → PathBuf
  pub push : PathBuf → Text → PathBuf
  pub file_name : PathBuf → Option Text
  pub parent : PathBuf → Option PathBuf
  pub path_starts_with : PathBuf → PathBuf → Bool
  pub to_text : PathBuf → Text
  pub of_text : Text → PathBuf
  pub exists : PathBuf → Bool
  pub is_dir : PathBuf → Bool
  pub canonicalize : PathBuf → Result Text PathBuf
  pub depth : PathBuf → ℕ
  pub parent_depth : (p q : PathBuf) → parent p ≡ some q → depth q < depth p
  pub starts_with_self : (p : PathBuf) → path_starts_with p p ≡ true

module _ (fs : FileSystem) where
  pub data JailError : Type 0 where
    root_not_found root_not_directory invalid_working_directory : fs.PathBuf → JailError
    outside_workspace : fs.PathBuf → fs.PathBuf → JailError
    invalid_path io : Text → JailError

  pub record WorkspaceJail : Type 0 where
    pub root : fs.PathBuf
    pub canonical_root : fs.PathBuf
    pub allowed_paths : List fs.PathBuf
    pub canonical_allowed_paths : List fs.PathBuf

  -- `?` on a call of the file system.
  abbrev pub from_io : {A : Type 0} → Result Text A → Result JailError A
  from_io (ok a) = ok a
  from_io (err e) = err (io e)

  -- The loop over `allowed_paths`: a path that does not exist stays as it was given.
  unfoldable pub canonical_all : List fs.PathBuf → Result JailError (List fs.PathBuf)
  canonical_all [] = ok []
  canonical_all (p ∷ ps) = do
    c ← if fs.exists p then from_io (fs.canonicalize p) else ok p
    cs ← canonical_all ps
    ok (c ∷ cs)

  unfoldable pub with_allowed_paths : fs.PathBuf → List fs.PathBuf → Result JailError WorkspaceJail
  with_allowed_paths root allowed = do
    guard (fs.exists root) (root_not_found root)
    guard (fs.is_dir root) (root_not_directory root)
    canonical_root ← from_io (fs.canonicalize root)
    canonical_allowed ← canonical_all allowed
    ok (record {
      root = root;
      canonical_root = canonical_root;
      allowed_paths = allowed;
      canonical_allowed_paths = canonical_allowed;
    })

  unfoldable pub normalize_path_prefix : fs.PathBuf → fs.PathBuf
  normalize_path_prefix path = elim (strip_prefix? (lit "\\\\?\\") (fs.to_text path)) [
    | none ↦ path
    | some stripped ↦ fs.of_text stripped
  ]

  unfoldable pub is_path_within : fs.PathBuf → fs.PathBuf → Bool
  unfolding normalize_path_prefix
  is_path_within base target =
      fs.path_starts_with (normalize_path_prefix target) (normalize_path_prefix base)

  unfoldable pub within_any : fs.PathBuf → List fs.PathBuf → Bool
  within_any path [] = false
  within_any path (a ∷ rest) = is_path_within a path || within_any path rest

  -- The walk up to the deepest ancestor that exists, with the names that were passed, the
  -- outermost first; a path that is at its end stops the walk.
  unfoldable pub walk_up : ℕ → fs.PathBuf → List Text → fs.PathBuf × List Text
  walk_up zero current names = (current, names)
  walk_up (suc fuel) current names =
      if fs.exists current then (current, names) else elim (fs.file_name current) [
        | none ↦ (current, names)
        | some name ↦ elim (fs.parent current) [
          | none ↦ (current, name ∷ names)
          | some up ↦ walk_up fuel up (name ∷ names)
        ]
      ]

module _ {fs : FileSystem} where
  unfoldable pub is_contained : WorkspaceJail fs → fs.PathBuf → Bool
  unfolding is_path_within within_any
  is_contained j path =
      is_path_within fs j.canonical_root path || within_any fs path j.canonical_allowed_paths

  -- The names are put back, unless one of them is a traversal.
  unfoldable pub push_all : JailError fs → fs.PathBuf → List Text → Result (JailError fs) fs.PathBuf
  push_all refused resolved [] = ok resolved
  push_all refused resolved (name ∷ names) = do
    guard (not (text_eq name (lit "..") || text_eq name (lit "."))) refused
    push_all refused (fs.push resolved name) names

  -- The path that is looked for.
  abbrev pub target_of : WorkspaceJail fs → fs.PathBuf → fs.PathBuf
  target_of j path = if fs.is_relative path then fs.join j.canonical_root path else path

  -- Each step goes to a parent, so the depth is fuel enough.
  unfoldable pub resolve_new : WorkspaceJail fs → fs.PathBuf → Result (JailError fs) fs.PathBuf
  resolve_new j target = do
    let (current, names) = walk_up fs (fs.depth target) target []
    guard (fs.exists current) (outside_workspace target j.canonical_root)
    ancestor ← from_io fs (fs.canonicalize current)
    guard (is_contained j ancestor) (outside_workspace ancestor j.canonical_root)
    resolved ← push_all (outside_workspace target j.canonical_root) ancestor names
    guard (is_contained j resolved) (outside_workspace resolved j.canonical_root)
    ok resolved

  unfoldable pub resolve_existing : WorkspaceJail fs → fs.PathBuf → Result (JailError fs) fs.PathBuf
  resolve_existing j target = do
    canonical ← from_io fs (fs.canonicalize target)
    guard (is_contained j canonical) (outside_workspace canonical j.canonical_root)
    ok canonical

  unfoldable pub resolve_path : WorkspaceJail fs → fs.PathBuf → Result (JailError fs) fs.PathBuf
  unfolding resolve_new resolve_existing
  resolve_path j path =
      let target = target_of j path in
      if fs.is_empty path
      then ok j.canonical_root
      else if fs.exists target
      then resolve_existing j target
      else resolve_new j target

  unfoldable pub check_contained : WorkspaceJail fs → fs.PathBuf → Result (JailError fs) fs.PathBuf
  check_contained j path = do
    resolved ← resolve_path j path
    guard (is_contained j resolved) (outside_workspace resolved j.canonical_root)
    ok resolved

  unfoldable pub validate_cwd :
      WorkspaceJail fs → Option fs.PathBuf → Result (JailError fs) fs.PathBuf
  validate_cwd j none = ok (normalize_path_prefix fs j.canonical_root)
  validate_cwd j (some dir) = do
    resolved ← resolve_path j dir
    guard (fs.is_dir resolved) (invalid_working_directory resolved)
    ok (normalize_path_prefix fs resolved)
