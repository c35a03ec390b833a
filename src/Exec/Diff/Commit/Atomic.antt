-- ===== src/Exec/Diff/Commit/Atomic.antt =====
-- diff.rs: what a patch leaves of the files, when it succeeds and when it fails.
use syntropy.Prelude.{
  sym, text_eq_iff, remove, ◌⊎◌, Option-cases, Result-cases, Bool-cases, with_ok, inl, inr, refl,
  none, some, lookup-insert, lookup-remove, arith, ok, false, ◌≡◌, true, not, ◌&&◌, Option, Text,
  text_eq, lookup, Result, err, if◌then◌else◌,
}
use syntropy.Security.Crypto.{Crypto}
use syntropy.Exec.Diff.{DiffError}
use syntropy.Exec.Diff.Commit.{
  Surroundings, PatchOptions, PatchApplyResult, Files, Edited, commit_atomically, committed,
  prepare, CommitFailure, not_opened, not_written, not_renamed, refused_on_windows, read_file,
  apply_edit, read_and_verify, compute_sha256, bytes_of, hash_fits,
}

-- A file that was there is gone: on Windows it was removed for a second rename, which failed too.
abbrev pub IsLost : Surroundings → Text → Text → Files → Type 0
IsLost w path k after =
    (k ≡ path)
    × (lookup k after ≡ none)
    × ((m : Text) × (w.failure ≡ some (refused_on_windows true (some m))))

commit_error :
    (w : Surroundings) (f : Option CommitFailure) (path content k : Text) (files : Files)
    (e : DiffError)
    → w.failure ≡ f
    → text_eq w.shadow_path k ≡ false
    → (commit_atomically w path content files).0 ≡ err e
    → (lookup k (commit_atomically w path content files).1 ≡ lookup k files)
      ⊎ IsLost w path k (commit_atomically w path content files).1
unfolding commit_atomically
commit_error w none path content k files e is_f apart h = absurd (ground arith)
commit_error w (some (not_opened m)) path content k files e is_f apart h = inl (ground arith)
commit_error w (some (not_written m part)) path content k files e is_f apart h =
    inl (ground (arith, lookup-insert w.shadow_path k part files))
commit_error w (some (not_renamed m)) path content k files e is_f apart h =
    inl (ground (arith, lookup-remove w.shadow_path k files))
commit_error w (some (refused_on_windows removed none)) path content k files e is_f apart h =
    absurd (ground arith)
commit_error w (some (refused_on_windows false (some m))) path content k files e is_f apart h =
    inl (ground (arith, lookup-remove w.shadow_path k files))
commit_error w (some (refused_on_windows true (some m))) path content k files e is_f apart h =
    let without = lookup-remove path k files in
    let shadow = lookup-remove w.shadow_path k (remove path files) in
    elim (Bool-cases (text_eq path k)) [
      | inr other ↦ inl (ground (arith, without, shadow, other))
      | inl same ↦
          inr (sym ((text_eq_iff path k).0 same), ground (arith, without, shadow, same), (m, is_f))
    ]

commit_ok :
    (w : Surroundings) (f : Option CommitFailure) (path content : Text) (files : Files) (k : Text)
    → w.failure ≡ f
    → (commit_atomically w path content files).0 ≡ ok tt
    → lookup k (commit_atomically w path content files).1
      ≡ (if text_eq path k then some content else lookup k files)
unfolding commit_atomically
commit_ok w none path content files k is_f h = ground (arith, lookup-insert path k content files)
commit_ok w (some (not_opened m)) path content files k is_f h = absurd (ground arith)
commit_ok w (some (not_written m part)) path content files k is_f h = absurd (ground arith)
commit_ok w (some (not_renamed m)) path content files k is_f h = absurd (ground arith)
commit_ok w (some (refused_on_windows removed (some m))) path content files k is_f h =
    absurd (ground arith)
commit_ok w (some (refused_on_windows false none)) path content files k is_f h =
    ground (arith, lookup-insert path k content files)
commit_ok w (some (refused_on_windows true none)) path content files k is_f h =
    ground (arith, lookup-insert path k content (remove path files), lookup-remove path k files)

module _ (c : Crypto) where
  committed_error :
      (w : Surroundings) (path k : Text) (opts : PatchOptions) (files : Files)
      (r : PatchApplyResult) (e : DiffError)
      → text_eq w.shadow_path k ≡ false
      → (committed c w path opts files r).0 ≡ err e
      → (lookup k (committed c w path opts files r).1 ≡ lookup k files)
        ⊎ IsLost w path k (committed c w path opts files r).1
  unfolding committed
  committed_error w path k opts files r e apart h = elim (Bool-cases opts.dry_run) [
    | inl t ↦ absurd (ground arith)
    | inr f ↦
        let after = commit_atomically w path r.modified_content files in
        let same : (committed c w path opts files r).1 ≡ after.1 = ground (arith, f) in
        rw same (elim (Result-cases after.0) [
          | inl (u, g) ↦ absurd (ground (arith, f, g))
          | inr (e', g) ↦ commit_error w w.failure path r.modified_content k files e' refl apart g
        ])
  ]

  -- A patch that fails, as it reads the file, at its hash, in memory or on the disk, leaves every
  -- file as it was, other than the shadow file; but on Windows, where a rename that is refused is
  -- tried again after the file was removed, and is refused again, the file is gone.
  pub apply_edit_error :
      (edit : Text → Result DiffError Edited) (w : Surroundings) (path k : Text)
      (opts : PatchOptions) (files : Files) (e : DiffError)
      → text_eq w.shadow_path k ≡ false
      → (apply_edit c edit w path opts files).0 ≡ err e
      → (lookup k (apply_edit c edit w path opts files).1 ≡ lookup k files)
        ⊎ IsLost w path k (apply_edit c edit w path opts files).1
  unfolding apply_edit
  apply_edit_error edit w path k opts files e apart h =
      elim (Result-cases (prepare c edit w path opts files)) [
        | inr (e', p) ↦ inl (ground arith)
        | inl (r, p) ↦
            let same : apply_edit c edit w path opts files ≡ committed c w path opts files r =
              ground (arith, p) in
            rw same (committed_error w path k opts files r e apart (ground (arith, same, h)))
      ]

  -- What is read where nothing fails.
  read_file-ok :
      (w : Surroundings) (path bytes : Text) (files : Files)
      → read_file c w path files ≡ ok bytes
      → bytes ≡ bytes_of c path files
  read_file-ok w path bytes files h = elim (Option-cases (lookup path files)) [
    | inl e ↦ ground (arith, e)
    | inr (b, e) ↦ elim (Option-cases w.read_error) [
      | inl f ↦ ground (arith, e, f)
      | inr (x, f) ↦ absurd (ground (arith, e, f))
    ]
  ]

  prepare_ok :
      (edit : Text → Result DiffError Edited) (w : Surroundings) (path : Text) (opts : PatchOptions)
      (files : Files) (r : PatchApplyResult)
      → prepare c edit w path opts files ≡ ok r
      → (hash_fits c w opts (compute_sha256 c (bytes_of c path files)) ≡ true)
        × (edit (w.lossy (bytes_of c path files))
            ≡ ok (r.modified_content, r.lines_added, r.lines_removed))
        × (r.new_sha256 ≡ compute_sha256 c r.modified_content)
  unfolding prepare read_and_verify
  prepare_ok edit w path opts files r h =
      with_ok (read_and_verify c w path opts files) _ h λ (original, sha) e1 h1.
        with_ok (read_file c w path files) _ e1 λ bytes e3 h3.
          with_ok (edit original) _ h1 λ (modified, added, removed) e2 h2.
            let same = read_file-ok w path bytes files e3 in
            (ground (arith, same), ground (arith, same), ground arith)

  committed_ok :
      (w : Surroundings) (path : Text) (opts : PatchOptions) (files : Files)
      (r r' : PatchApplyResult)
      → (committed c w path opts files r).0 ≡ ok r'
      → (r ≡ r')
        × ((k : Text)
            → lookup k (committed c w path opts files r).1 ≡ (
                if not opts.dry_run && text_eq path k
                then some r.modified_content
                else lookup k files))
  unfolding committed
  committed_ok w path opts files r r' h = elim (Bool-cases opts.dry_run) [
    | inl t ↦ (ground arith, λ k. ground arith)
    | inr f ↦ (
      ground arith,
      λ k.
          let written = commit_ok w w.failure path r.modified_content files k refl (ground arith) in
          ground (arith, written),
    )
  ]

  -- A patch that succeeds found the hash that was expected, if one was, and reports what its edit
  -- makes of the file, with its hash. The file then holds that text, or what it held if the run was
  -- dry; the other files stay as they were.
  pub apply_edit_ok :
      (edit : Text → Result DiffError Edited) (w : Surroundings) (path : Text) (opts : PatchOptions)
      (files : Files) (r : PatchApplyResult)
      → (apply_edit c edit w path opts files).0 ≡ ok r
      → (hash_fits c w opts (compute_sha256 c (bytes_of c path files)) ≡ true)
        × (edit (w.lossy (bytes_of c path files))
            ≡ ok (r.modified_content, r.lines_added, r.lines_removed))
        × (r.new_sha256 ≡ compute_sha256 c r.modified_content)
        × ((k : Text)
            → lookup k (apply_edit c edit w path opts files).1 ≡ (
                if not opts.dry_run && text_eq path k
                then some r.modified_content
                else lookup k files))
  unfolding apply_edit
  apply_edit_ok edit w path opts files r h =
      elim (Result-cases (prepare c edit w path opts files)) [
        | inr (e', p) ↦ absurd (ground arith)
        | inl (r', p) ↦
            let (same, files_after) = committed_ok w path opts files r' r (ground arith) in
            let (fits, edits, hashed) = prepare_ok edit w path opts files r' p in
            rw (← same) (fits, edits, hashed, λ k. ground (arith, files_after k))
      ]
