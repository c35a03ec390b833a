-- ===== src/Exec/Worktree.antt =====
-- worktree.rs: the worktrees of the agents, on a host that runs git and keeps the files.
pub mod Isolation
use syntropy.Prelude.{
  Option-cases, ◌^◌, ℕ, zero, suc, ◌≡◌, ◌≢◌, ◌↔◌, ◌⊎◌, inl, inr, ◌≤◌, ◌<◌, ◌+◌, ◌-◌, ◌*◌, ◌%◌, ◌/◌,
  min, max, refl, sym, ap, ◌∙◌, Bool, true, false, not, ◌&&◌, ◌||◌, Option, none, some, List, [],
  ◌∷◌, ◌++◌, map, Text, lit, text_eq, text_eq_iff, text_eq_refl, Dict, lookup, insert, remove,
  Result, ok, err, ◌>>=◌, ◌>>◌, guard, with_ok, Result-cases, Bool-cases, ok-injective,
  if◌then◌else◌, length, take, drop, get_elem?, ltb, leb, ◌==◌, ==_iff, lookup-insert,
  lookup-remove, lookup-insert_self, dict_laws, arith, append-nil, append_assoc, length-append,
  text_lines, join, List-cases, if_both, drop-append, take-append, trim, contains, find?,
}

pub data WorktreeError : Type 0 where
  repo_not_found : Text → WorktreeError
  invalid_agent_id : Text → WorktreeError
  worktree_already_exists : Text → Text → WorktreeError
  git_failed : Text → Option ℕ → Text → WorktreeError
  io : Text → WorktreeError

-- What a command that ran leaves: whether it succeeded, its code and its two outputs.
pub record Output : Type 0 where
  pub success : Bool
  pub code : Option ℕ
  pub stdout : Text
  pub stderr : Text

pub record DirEntry : Type 0 where
  pub path : Text
  pub file_name : Text
  pub is_dir : Bool

-- The host: its state and the calls of `std::path`, `std::fs` and `std::process` on it, and the
-- characters of a text. An entry that cannot be read is not among those of `read_dir`.
pub record Host : Type 1 where
  pub World : Type 0
  pub join : Text → Text → Text
  pub exists : Text → World → Bool
  pub create_dir_all : Text → World → Result Text (Unit {0}) × World
  pub remove_dir_all : Text → World → World
  pub read_dir : Text → World → Result Text (List DirEntry)
  pub git : Text → List Text → World → Result Text Output × World
  pub debug : Text → Text
  pub lossy : Text → Text
  pub chars : Text → List ℕ
  pub is_alphanumeric : ℕ → Bool

pub record WorktreeInfo : Type 0 where
  pub agent_id : Text
  pub path : Text
  pub branch : Text
  pub head_commit : Option Text

pub record WorktreeManager : Type 0 where
  pub repo_root : Text
  pub worktrees_base : Text

abbrev pub all_chars : (ℕ → Bool) → List ℕ → Bool
all_chars f [] = true
all_chars f (c ∷ cs) = f c && all_chars f cs

module _ (h : Host) where
  -- `WorktreeManager::new`
  unfoldable pub new_manager : Text → h.World → Result WorktreeError WorktreeManager
  new_manager repo_root w = do
    guard (h.exists repo_root w) (repo_not_found repo_root)
    guard (h.exists (h.join repo_root (lit ".git")) w) (repo_not_found repo_root)
    ok (record {
      repo_root = repo_root;
      worktrees_base = h.join (h.join repo_root (lit ".syntropy")) (lit "worktrees");
    })

  abbrev pub is_valid_char : ℕ → Bool
  is_valid_char c = h.is_alphanumeric c || c == b'-' || c == b'_' || c == b'.'

  -- The checks are on the trimmed text, and the callers use the text itself.
  unfoldable pub validate_agent_id : Text → Result WorktreeError (Unit {0})
  unfolding trim text_eq find?
  validate_agent_id agent_id = do
    let trimmed = trim agent_id
    guard (not (text_eq trimmed [])) (invalid_agent_id agent_id)
    guard
        (not (
          contains (lit "/") trimmed || contains (lit "\\") trimmed || contains (lit "..") trimmed))
        (invalid_agent_id agent_id)
    guard (all_chars is_valid_char (h.chars trimmed)) (invalid_agent_id agent_id)
    ok tt

  unfoldable pub worktree_path : WorktreeManager → Text → Result WorktreeError Text
  unfolding validate_agent_id
  worktree_path m agent_id = validate_agent_id agent_id >> ok (h.join m.worktrees_base agent_id)

  -- `WorktreeManager::exists`
  unfoldable pub worktree_exists : WorktreeManager → Text → h.World → Bool
  unfolding worktree_path
  worktree_exists m agent_id w = elim (worktree_path m agent_id) [
    | ok path ↦ h.exists path w
    | err e ↦ false
  ]

  abbrev pub branch_of : Text → Text
  branch_of agent_id = lit "syntropy/worktree-" ++ agent_id

  abbrev pub base_of : Text → Text
  base_of base_branch = if text_eq (trim base_branch) [] then lit "HEAD" else trim base_branch

  abbrev pub add_args : Text → Text → Text → List Text
  add_args agent_id path base =
      lit "worktree" ∷ lit "add" ∷ lit "-B" ∷ branch_of agent_id ∷ path ∷ base ∷ []

  abbrev pub add_text : Text → Text → Text → Text
  add_text agent_id path base =
      lit "git worktree add -B "
      ++ (branch_of agent_id ++ (lit " " ++ (h.debug path ++ (lit " " ++ base))))

  -- What `git worktree add` gives.
  unfoldable pub added : Text → Text → Result Text Output → Result WorktreeError Text
  unfolding text_eq trim
  added cmd path (err e) = err (git_failed cmd none e)
  added cmd path (ok output) =
      let stderr = h.lossy output.stderr in
      let msg = if text_eq (trim stderr) [] then h.lossy output.stdout else stderr in
      if output.success then ok path else err (git_failed cmd output.code (trim msg))

  -- `create_worktree` from the path on.
  unfoldable pub create_at :
      WorktreeManager → Text → Text → Text → h.World → Result WorktreeError Text × h.World
  unfolding added text_eq trim
  create_at m agent_id base_branch path w =
      if h.exists path w
      then (err (worktree_already_exists agent_id path), w)
      else let (made, w1) = h.create_dir_all m.worktrees_base w in
        elim made [
          | err e ↦ (err (io e), w1)
          | ok u ↦
              let base = base_of base_branch in
              let (ran, w2) = h.git m.repo_root (add_args agent_id path base) w1 in
              (added (add_text agent_id path base) path ran, w2)
        ]

  unfoldable pub create_worktree :
      WorktreeManager → Text → Text → h.World → Result WorktreeError Text × h.World
  unfolding worktree_path create_at
  create_worktree m agent_id base_branch w = elim (worktree_path m agent_id) [
    | err e ↦ (err e, w)
    | ok path ↦ create_at m agent_id base_branch path w
  ]

  -- The commands of a cleanup, whose results are not looked at.
  abbrev pub run_git : WorktreeManager → List Text → h.World → h.World
  run_git m args w = (h.git m.repo_root args w).1

  abbrev pub pruned : WorktreeManager → Text → Text → h.World → h.World
  pruned m agent_id path w =
      let w1 =
        if h.exists path w
        then run_git m (lit "worktree" ∷ lit "remove" ∷ lit "--force" ∷ path ∷ []) w
        else w in
      let w2 = run_git m (lit "worktree" ∷ lit "prune" ∷ []) w1 in
      run_git m (lit "branch" ∷ lit "-D" ∷ branch_of agent_id ∷ []) w2

  -- What git leaves is removed.
  unfoldable pub remove_at : WorktreeManager → Text → Text → h.World → h.World
  remove_at m agent_id path w =
      let w3 = pruned m agent_id path w in if h.exists path w3 then h.remove_dir_all path w3 else w3

  unfoldable pub cleanup_worktree :
      WorktreeManager → Text → h.World → Result WorktreeError (Unit {0}) × h.World
  unfolding worktree_path remove_at
  cleanup_worktree m agent_id w = elim (worktree_path m agent_id) [
    | err e ↦ (err e, w)
    | ok path ↦ (ok tt, remove_at m agent_id path w)
  ]

  abbrev pub info_of : DirEntry → WorktreeInfo
  info_of entry = record {
    agent_id = h.lossy entry.file_name;
    path = entry.path;
    branch = branch_of (h.lossy entry.file_name);
    head_commit = none;
  }

  abbrev pub infos_of : List DirEntry → List WorktreeInfo
  infos_of [] = []
  infos_of (entry ∷ entries) =
      let rest = infos_of entries in if entry.is_dir then info_of entry ∷ rest else rest

  unfoldable pub list_worktrees :
      WorktreeManager → h.World → Result WorktreeError (List WorktreeInfo)
  list_worktrees m w =
      if h.exists m.worktrees_base w
      then elim (h.read_dir m.worktrees_base w) [
        | err e ↦ err (io e)
        | ok entries ↦ ok (infos_of entries)
      ]
      else ok []

  unfoldable pub cleanup_each : WorktreeManager → List WorktreeInfo → h.World → h.World
  unfolding cleanup_worktree
  cleanup_each m [] w = w
  cleanup_each m (wt ∷ wts) w = cleanup_each m wts (cleanup_worktree m wt.agent_id w).1

  unfoldable pub cleanup_all : WorktreeManager → h.World → Result WorktreeError (Unit {0}) × h.World
  unfolding list_worktrees cleanup_each
  cleanup_all m w = elim (list_worktrees m w) [
    | err e ↦ (err e, w)
    | ok list ↦
        let w1 = cleanup_each m list w in
        (ok tt, if h.exists m.worktrees_base w1 then h.remove_dir_all m.worktrees_base w1 else w1)
  ]
