-- ===== src/Exec/Diff/Parser/Others.antt =====
-- diff.rs: the files that a patch leaves alone.
use syntropy.Prelude.{
  ◌≡◌, inl, inr, refl, true, false, remove, Option, none, some, Text, text_eq, lookup, Result,
  Result-cases, Bool-cases, lookup-insert, lookup-remove, arith,
}
use syntropy.Security.Crypto.{Crypto}
use syntropy.Exec.Diff.{DiffError}
use syntropy.Exec.Diff.Commit.{
  CommitFailure, not_opened, not_written, not_renamed, refused_on_windows, apply_edit, committed,
  commit_atomically, Edited, Surroundings, PatchOptions, PatchApplyResult, Files, prepare,
}
use syntropy.Exec.Diff.Parser.{apply_patch, edit_of}

commit_others :
    (w : Surroundings) (f : Option CommitFailure) (path content k : Text) (files : Files)
    → w.failure ≡ f
    → text_eq path k ≡ false
    → text_eq w.shadow_path k ≡ false
    → lookup k (commit_atomically w path content files).1 ≡ lookup k files
unfolding commit_atomically
commit_others w none path content k files is_f p q =
    ground (arith, lookup-insert path k content files)
commit_others w (some (not_opened m)) path content k files is_f p q = ground arith
commit_others w (some (not_written m part)) path content k files is_f p q =
    ground (arith, lookup-insert w.shadow_path k part files)
commit_others w (some (not_renamed m)) path content k files is_f p q =
    ground (arith, lookup-remove w.shadow_path k files)
commit_others w (some (refused_on_windows false none)) path content k files is_f p q =
    ground (arith, lookup-insert path k content files)
commit_others w (some (refused_on_windows true none)) path content k files is_f p q =
    ground (arith, lookup-insert path k content (remove path files), lookup-remove path k files)
commit_others w (some (refused_on_windows false (some m))) path content k files is_f p q =
    ground (arith, lookup-remove w.shadow_path k files)
commit_others w (some (refused_on_windows true (some m))) path content k files is_f p q =
    ground (arith, lookup-remove w.shadow_path k (remove path files), lookup-remove path k files)

module _ (c : Crypto) where
  committed_others :
      (w : Surroundings) (path k : Text) (opts : PatchOptions) (files : Files)
      (r : PatchApplyResult)
      → text_eq path k ≡ false
      → text_eq w.shadow_path k ≡ false
      → lookup k (committed c w path opts files r).1 ≡ lookup k files
  unfolding committed
  committed_others w path k opts files r p q = elim (Bool-cases opts.dry_run) [
    | inl t ↦ ground (arith, t)
    | inr f ↦ ground (arith, f, commit_others w w.failure path r.modified_content k files refl p q)
  ]

  apply_edit_others :
      (edit : Text → Result DiffError Edited) (w : Surroundings) (path k : Text)
      (opts : PatchOptions) (files : Files)
      → text_eq path k ≡ false
      → text_eq w.shadow_path k ≡ false
      → lookup k (apply_edit c edit w path opts files).1 ≡ lookup k files
  unfolding apply_edit
  apply_edit_others edit w path k opts files p q =
      elim (Result-cases (prepare c edit w path opts files)) [
        | inr (e, f) ↦ ground (arith, f)
        | inl (r, f) ↦ ground (arith, f, committed_others w path k opts files r p q)
      ]

  -- A patch changes no file but its own and its shadow.
  pub apply_patch_others :
      (diff : Text) (w : Surroundings) (path k : Text) (opts : PatchOptions) (files : Files)
      → text_eq path k ≡ false
      → text_eq w.shadow_path k ≡ false
      → lookup k (apply_patch c diff w path opts files).1 ≡ lookup k files
  unfolding apply_patch
  apply_patch_others diff w path k opts files p q =
      apply_edit_others (edit_of diff) w path k opts files p q
