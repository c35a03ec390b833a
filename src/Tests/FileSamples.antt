-- ===== src/Tests/FileSamples.antt =====
-- A file system of two directories, and a jail in it.
use syntropy.Prelude.{
  ◌≡◌, ◌<◌, ap, Bool, true, ◌||◌, Option, none, some, [], ◌∷◌, ◌++◌, Text, lit, text_eq, ok, length,
  arith, ends_with, ends_with-append,
}
use syntropy.Exec.Jail.{FileSystem, WorkspaceJail}

-- A path is its names of one byte, the innermost first.
abbrev pub known : Text → Bool
known p = text_eq p [] || text_eq p (lit "w")

abbrev pub parent_of : Text → Option Text
parent_of [] = none
parent_of (n ∷ p) = some p

abbrev pub name_of : Text → Option Text
name_of [] = none
name_of (n ∷ p) = some (n ∷ [])

pub parent_of_shorter : (p q : Text) → parent_of p ≡ some q → length q < length p
parent_of_shorter [] q h = absurd (ground arith)
parent_of_shorter (n ∷ p) q h = let e : p ≡ q = ground arith in omega (arith, ap length e)

abbrev pub tree : FileSystem
tree = record {
  PathBuf = Text;
  is_empty = λ p. text_eq p [];
  is_relative = λ p. true;
  join = λ base p. p ++ base;
  push = λ p name. name ++ p;
  file_name = name_of;
  parent = parent_of;
  path_starts_with = λ p q. ends_with q p;
  to_text = λ p. p;
  of_text = λ t. t;
  exists = known;
  is_dir = known;
  canonicalize = λ p. ok p;
  depth = λ p. length p;
  parent_depth = parent_of_shorter;
  starts_with_self = λ p. ends_with-append [] p;
}

abbrev pub jail : WorkspaceJail tree
jail = record {
  root = lit "w";
  canonical_root = lit "w";
  allowed_paths = [];
  canonical_allowed_paths = [];
}
