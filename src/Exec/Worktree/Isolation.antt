-- ===== src/Exec/Worktree/Isolation.antt =====
-- worktree.rs: where a worktree is made and what a cleanup leaves.
use syntropy.Prelude.{
  Option-cases, ◌≡◌, ◌≢◌, ◌⊎◌, inl, inr, refl, sym, true, false, none, [], Text, lit, text_eq,
  text_eq_iff, Result, ok, err, Result-cases, Bool-cases, if◌then◌else◌, arith, trim, find?,
}
use syntropy.Exec.Worktree.{
  pruned, Host, Output, WorktreeError, WorktreeManager, validate_agent_id, worktree_path, add_args,
  base_of, added, create_at, create_worktree, remove_at, cleanup_worktree, cleanup_all,
  list_worktrees, cleanup_each, add_text,
}

module _ (h : Host) (m : WorktreeManager) where
  -- An id that is accepted is, without the white space around it, a name of one part: it is not
  -- empty and has no separator and no `..`.
  pub validate_agent_id-name :
      (agent_id : Text)
      → validate_agent_id h agent_id ≡ ok tt
      → (trim agent_id ≢ [])
        × (find? (lit "/") (trim agent_id) ≡ none)
        × (find? (lit "\\") (trim agent_id) ≡ none)
        × (find? (lit "..") (trim agent_id) ≡ none)
  unfolding validate_agent_id
  validate_agent_id-name agent_id e = elim (Bool-cases (text_eq (trim agent_id) [])) [
    | inl t ↦ absurd (ground (arith, t))
    | inr f ↦ elim (Option-cases (find? (lit "/") (trim agent_id))) [
      | inr (a, x) ↦ absurd (ground (arith, f, x))
      | inl x ↦ elim (Option-cases (find? (lit "\\") (trim agent_id))) [
        | inr (a, y) ↦ absurd (ground (arith, f, x, y))
        | inl y ↦ elim (Option-cases (find? (lit "..") (trim agent_id))) [
          | inr (a, z) ↦ absurd (ground (arith, f, x, y, z))
          | inl z ↦ (λ n. ground (arith, f, text_eq_iff (trim agent_id) []), x, y, z)
        ]
      ]
    ]
  ]

  path_of :
      (agent_id : Text)
      → validate_agent_id h agent_id ≡ ok tt
      → worktree_path h m agent_id ≡ ok (h.join m.worktrees_base agent_id)
  unfolding worktree_path
  path_of agent_id e = rw e refl

  path-ok :
      (agent_id path : Text)
      → worktree_path h m agent_id ≡ ok path
      → (validate_agent_id h agent_id ≡ ok tt) × (path ≡ h.join m.worktrees_base agent_id)
  unfolding worktree_path
  path-ok agent_id path e = elim (Result-cases (validate_agent_id h agent_id)) [
    | inl (u, v) ↦ (v, ground (arith, v))
    | inr (x, v) ↦ absurd (ground (arith, v))
  ]

  added-ok :
      (cmd path path' : Text) (ran : Result Text Output)
      → added h cmd path ran ≡ ok path'
      → (output : Output) × (ran ≡ ok output) × (output.success ≡ true) × (path ≡ path')
  unfolding added
  added-ok cmd path path' (err x) e = absurd (ground arith)
  added-ok cmd path path' (ok output) e = elim (Bool-cases output.success) [
    | inl t ↦ (output, refl, t, ground (arith, t))
    | inr f ↦ absurd (ground (arith, f))
  ]

  create_at-ok :
      (agent_id base_branch path path' : Text) (w w' : h.World)
      → create_at h m agent_id base_branch path w ≡ (ok path', w')
      → (path ≡ path')
        × (h.exists path w ≡ false)
        × (let ran =
              h.git m.repo_root
                (add_args h agent_id path (base_of h base_branch))
                (h.create_dir_all m.worktrees_base w).1 in
            ((output : Output) × (ran.0 ≡ ok output) × (output.success ≡ true)) × (ran.1 ≡ w'))
  unfolding create_at
  create_at-ok agent_id base_branch path path' w w' e = elim (Bool-cases (h.exists path w)) [
    | inl t ↦ absurd (ground (arith, t))
    | inr f ↦ elim (Result-cases (h.create_dir_all m.worktrees_base w).0) [
      | inr (x, g) ↦ absurd (ground (arith, f, g))
      | inl (u, g) ↦
          let ran =
            h.git m.repo_root (add_args h agent_id path (base_of h base_branch))
              (h.create_dir_all m.worktrees_base w).1 in
          let (output, was, success, same) =
            added-ok (add_text h agent_id path (base_of h base_branch)) path path' ran.0
              (ground (arith, f, g)) in
          (same, f, ((output, was, success), ground (arith, f, g)))
    ]
  ]

  -- A worktree that is made has an id that is, without the white space around it, not empty and
  -- without a separator or `..`; its path is the base joined with the id, nothing was there before,
  -- and the last step was the one command of git, which succeeded.
  pub create_worktree-ok :
      (agent_id base_branch path : Text) (w w' : h.World)
      → create_worktree h m agent_id base_branch w ≡ (ok path, w')
      → (trim agent_id ≢ [])
        × (find? (lit "/") (trim agent_id) ≡ none)
        × (find? (lit "\\") (trim agent_id) ≡ none)
        × (find? (lit "..") (trim agent_id) ≡ none)
        × (path ≡ h.join m.worktrees_base agent_id)
        × (h.exists path w ≡ false)
        × (let ran =
              h.git m.repo_root
                (add_args h agent_id path (base_of h base_branch))
                (h.create_dir_all m.worktrees_base w).1 in
            ((output : Output) × (ran.0 ≡ ok output) × (output.success ≡ true)) × (ran.1 ≡ w'))
  unfolding create_worktree
  create_worktree-ok agent_id base_branch path w w' e =
      elim (Result-cases (worktree_path h m agent_id)) [
        | inr (x, f) ↦ absurd (ground (arith, f))
        | inl (p, f) ↦
            let (valid, at) = path-ok agent_id p f in
            let (same, free, ran) =
              create_at-ok agent_id base_branch p path w w' (ground (arith, f)) in
            let (some_name, slash, backslash, dots) = validate_agent_id-name agent_id valid in
            rw (sym same) (some_name, slash, backslash, dots, at, free, ran)
      ]

  remove_if :
      ((p : Text) (w : h.World) → h.exists p (h.remove_dir_all p w) ≡ false)
      → (path : Text) (w : h.World)
      → h.exists path (if h.exists path w then h.remove_dir_all path w else w) ≡ false
  remove_if removes path w = elim (Bool-cases (h.exists path w)) [
    | inl t ↦ ground (arith, t, removes path w)
    | inr f ↦ ground (arith, f)
  ]

  remove_at-gone :
      ((p : Text) (w : h.World) → h.exists p (h.remove_dir_all p w) ≡ false)
      → (agent_id path : Text) (w : h.World) → h.exists path (remove_at h m agent_id path w) ≡ false
  unfolding remove_at
  remove_at-gone removes agent_id path w = remove_if removes path (pruned h m agent_id path w)

  -- Where the host removes a directory when it is asked to, a cleanup of an accepted id leaves
  -- nothing at its path, whatever git does.
  pub cleanup_worktree-gone :
      ((p : Text) (w : h.World) → h.exists p (h.remove_dir_all p w) ≡ false)
      → (agent_id : Text) (w : h.World) → validate_agent_id h agent_id ≡ ok tt
      → let (r, w') = cleanup_worktree h m agent_id w in
        (r ≡ ok tt) × (h.exists (h.join m.worktrees_base agent_id) w' ≡ false)
  unfolding cleanup_worktree
  cleanup_worktree-gone removes agent_id w e =
      rw (cleanup_worktree, path_of agent_id e)
        (refl, remove_at-gone removes agent_id (h.join m.worktrees_base agent_id) w)

  -- And a cleanup of all leaves nothing at the base, or was refused and changed nothing.
  pub cleanup_all-gone :
      ((p : Text) (w : h.World) → h.exists p (h.remove_dir_all p w) ≡ false)
      → (w : h.World)
      → ((cleanup_all h m w).0 ≡ ok tt) × (h.exists m.worktrees_base (cleanup_all h m w).1 ≡ false)
        ⊎ (((e : WorktreeError) × ((cleanup_all h m w).0 ≡ err e)) × ((cleanup_all h m w).1 ≡ w))
  unfolding cleanup_all
  cleanup_all-gone removes w = elim (Result-cases (list_worktrees h m w)) [
    | inl (list, e) ↦ inl (
      ground (arith, e),
      rw (cleanup_all, e) (remove_if removes m.worktrees_base (cleanup_each h m list w)),
    )
    | inr (x, e) ↦ inr ((x, ground (arith, e)), ground (arith, e))
  ]
