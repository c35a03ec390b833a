-- ===== src/Tests/WorktreeTests.antt =====
-- A worktree on a host whose state is the list of the paths that exist, and whose git makes the
-- path that it is given and removes nothing.
use syntropy.Prelude.{
  ℕ, ◌≡◌, ◌≢◌, none, refl, Bool, true, false, ◌&&◌, ◌||◌, some, List, [], ◌∷◌, ◌++◌, Text, lit,
  text_eq, Result, ok, err, if◌then◌else◌, leb, arith,
}
use syntropy.Prelude.{after_white?, trim_start_from, trim_end, trim, find?, strip_prefix?}
use syntropy.Exec.Worktree.{
  Host, Output, WorktreeManager, new_manager, validate_agent_id, invalid_agent_id, worktree_path,
  worktree_exists, added, create_at, create_worktree, remove_at, cleanup_worktree, cleanup_all,
  list_worktrees, cleanup_each, add_args, base_of,
}
use syntropy.Exec.Worktree.Isolation.{create_worktree-ok}

program : Unit {0}
unfolding text_eq after_white? trim_start_from trim_end trim find? strip_prefix? new_manager
    validate_agent_id worktree_path worktree_exists added create_at create_worktree remove_at
    cleanup_worktree cleanup_all list_worktrees cleanup_each
program = tt

abbrev is_among : Text → List Text → Bool
is_among p [] = false
is_among p (q ∷ w) = text_eq p q || is_among p w

abbrev without_path : Text → List Text → List Text
without_path p [] = []
without_path p (q ∷ w) = let rest = without_path p w in if text_eq p q then rest else q ∷ rest

abbrev run : List Text → List Text → Result Text Output × List Text
run (a ∷ b ∷ c ∷ d ∷ path ∷ rest) w =
    (ok (record { success = true; code = some 0; stdout = []; stderr = [] }), path ∷ w)
run [] w = (err (lit "no command"), w)
run (a ∷ []) w = (err (lit "no command"), w)
run (a ∷ b ∷ []) w = (err (lit "no command"), w)
run (a ∷ b ∷ c ∷ []) w = (err (lit "no command"), w)
run (a ∷ b ∷ c ∷ d ∷ []) w = (err (lit "no command"), w)

abbrev plain : ℕ → Bool
plain c = leb b'a' c && leb c b'z'

abbrev host : Host
host = record {
  World = List Text;
  join = λ base p. base ++ (b'/' ∷ p);
  exists = is_among;
  create_dir_all = λ p w. (ok tt, p ∷ w);
  remove_dir_all = without_path;
  read_dir =
      λ p w. ok (record { path = p ++ lit "/ana"; file_name = lit "ana"; is_dir = true } ∷ []);
  git = λ dir args w. run args w;
  debug = λ p. p;
  lossy = λ t. t;
  chars = λ t. t;
  is_alphanumeric = plain;
}

abbrev manager : WorktreeManager
manager = record { repo_root = lit "r"; worktrees_base = lit "r/w" }

is_among-without_path : (p : Text) (w : List Text) → is_among p (without_path p w) ≡ false
is_among-without_path p [] = refl
is_among-without_path p (q ∷ w) = ground (arith, is_among-without_path p w)

accepts : validate_agent_id host (lit "ana") ≡ ok tt
unfolding program
accepts = refl

refuses : validate_agent_id host (lit "../x") ≡ err (invalid_agent_id (lit "../x"))
unfolding program
refuses = refl

-- The id `.` is accepted, and the white space around an id is kept in its path.
accepts_dot : worktree_path host manager (lit ".") ≡ ok (lit "r/w/.")
unfolding program
accepts_dot = refl

keeps_white : worktree_path host manager (lit " ana") ≡ ok (lit "r/w/ ana")
unfolding program
keeps_white = refl

abbrev made : List Text
made = lit "r/w/ana" ∷ lit "r/w" ∷ lit "r" ∷ []

creates :
    create_worktree host manager (lit "ana") (lit "") (lit "r" ∷ []) ≡ (ok (lit "r/w/ana"), made)
unfolding program
creates = refl

create_worktree-ok_example :
    (trim (lit "ana") ≢ [])
    × (find? (lit "/") (trim (lit "ana")) ≡ none)
    × (find? (lit "\\") (trim (lit "ana")) ≡ none)
    × (find? (lit "..") (trim (lit "ana")) ≡ none)
    × (lit "r/w/ana" ≡ lit "r/w/ana")
    × (is_among (lit "r/w/ana") (lit "r" ∷ []) ≡ false)
    × (let ran =
          run
            (add_args host (lit "ana") (lit "r/w/ana") (base_of host (lit "")))
            (lit "r/w" ∷ lit "r" ∷ []) in
        ((output : Output) × (ran.0 ≡ ok output) × (output.success ≡ true)) × (ran.1 ≡ made))
create_worktree-ok_example =
    create_worktree-ok host manager (lit "ana") (lit "") (lit "r/w/ana") (lit "r" ∷ []) made creates
