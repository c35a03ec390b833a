-- ===== src/Exec/Diff/Commit.antt =====
-- diff.rs: a patch on a file: the check of its hash, the edit in memory, the commit by a rename.
pub mod Atomic
use syntropy.Prelude.{
  Option-cases, ◌^◌, ℕ, zero, suc, ◌≡◌, ◌≢◌, ◌↔◌, ◌⊎◌, inl, inr, ◌≤◌, ◌<◌, ◌+◌, ◌-◌, ◌*◌, ◌%◌, ◌/◌,
  min, max, refl, sym, ap, ◌∙◌, Bool, true, false, not, ◌&&◌, ◌||◌, Option, none, some, List, [],
  ◌∷◌, ◌++◌, map, Text, lit, text_eq, text_eq_iff, text_eq_refl, Dict, lookup, insert, remove,
  Result, ok, err, ◌>>=◌, ◌>>◌, guard, with_ok, Result-cases, Bool-cases, ok-injective,
  if◌then◌else◌, length, take, drop, get_elem?, ltb, leb, ◌==◌, ==_iff, lookup-insert,
  lookup-remove, lookup-insert_self, dict_laws, arith,
}
use syntropy.Prelude.{eq_ignore_ascii_case, text_lines, find?, strip_prefix?}
use syntropy.Security.Crypto.{Crypto}
use syntropy.Exec.Diff.{DiffError, hash_mismatch, context_mismatch, invalid_patch, io}

-- How the writing of the shadow file or the rename fails; a write that fails leaves what it wrote.
-- On Windows a rename that is refused is tried again, after an attempt to remove the file: whether
-- it was removed, and how the second rename fails, if it does.
pub data CommitFailure : Type 0 where
  not_opened : Text → CommitFailure
  not_written : Text → Text → CommitFailure
  not_renamed : Text → CommitFailure
  refused_on_windows : Bool → Option Text → CommitFailure

-- What a call meets outside: how reading the file and the commit fail, if they do, the name of the shadow file, a new
-- UUID, and what `str::trim` and `String::from_utf8_lossy` make of a text.
pub record Surroundings : Type 0 where
  pub read_error : Option Text
  pub failure : Option CommitFailure
  pub shadow_path : Text
  pub uuid : Text
  pub trim : Text → Text
  pub lossy : Text → Text

pub record PatchOptions : Type 0 where
  pub patch_id : Option Text
  pub expected_sha256 : Option Text
  pub dry_run : Bool
  pub create_parents : Bool

pub record PatchApplyResult : Type 0 where
  pub patch_id : Text
  pub file_path : Text
  pub success : Bool
  pub lines_added : ℕ
  pub lines_removed : ℕ
  pub original_sha256 : Text
  pub new_sha256 : Text
  pub modified_content : Text

-- The files, by their paths.
abbrev pub Files : Type 0
Files = Dict Text

-- The new file is renamed over the old one.
unfoldable pub commit_atomically :
    Surroundings → Text → Text → Files → Result DiffError (Unit {0}) × Files
commit_atomically w path content files = elim w.failure [
  | none ↦ (ok tt, insert path content files)
  | some (not_opened e) ↦ (err (io e), files)
  | some (not_written e part) ↦ (err (io e), insert w.shadow_path part files)
  | some (not_renamed e) ↦ (err (io e), remove w.shadow_path files)
  | some (refused_on_windows removed retry) ↦
      let files1 = if removed then remove path files else files in
      elim retry [
        | none ↦ (ok tt, insert path content files1)
        | some e ↦ (err (io e), remove w.shadow_path files1)
      ]
]

-- What an edit in memory makes of a text: the new text, the lines added and the lines removed.
abbrev pub Edited : Type 0
Edited = Text × ℕ × ℕ

-- The first occurrence of each search text in turn. The counters are `u32`.
unfoldable pub apply_blocks : List (Text × Text) → Edited → Result DiffError Edited
apply_blocks [] e = ok e
apply_blocks ((search, replacement) ∷ blocks) (current, added, removed) =
    elim (find? search current) [
      | none ↦ err (context_mismatch 0 search (lit "<search content not found in target file>"))
      | some (before, after) ↦ apply_blocks blocks (
        before ++ (replacement ++ after),
        (added + length (text_lines replacement)) % 2 ^ 32,
        (removed + length (text_lines search)) % 2 ^ 32,
      )
    ]

-- A newline that stands first is left out.
abbrev pub after_newline : Text → Text
after_newline s = elim (strip_prefix? (lit "\r\n") s) [
  | some r ↦ r
  | none ↦ elim (strip_prefix? (lit "\n") s) [ some r ↦ r | none ↦ s ]
]

-- Each round passes a marker, so the length is fuel enough.
unfoldable pub blocks_from : ℕ → Text → Result DiffError (List (Text × Text))
blocks_from zero remaining = ok []
blocks_from (suc fuel) remaining = elim (find? (lit "<<<<<<< SEARCH") remaining) [
  | none ↦ ok []
  | some (before, start) ↦ elim (find? (lit "=======") (after_newline start)) [
    | none ↦ err (invalid_patch (lit "Missing '=======' separator in search/replace block"))
    | some (search_text, sep) ↦ elim (find? (lit ">>>>>>> REPLACE") (after_newline sep)) [
      | none ↦
          err (invalid_patch (lit "Missing '>>>>>>> REPLACE' terminator in search/replace block"))
      | some (replace_text, rest) ↦
          blocks_from fuel rest >>= λ blocks. ok ((search_text, replace_text) ∷ blocks)
    ]
  ]
]

unfoldable pub parse_search_replace_blocks : Text → Result DiffError (List (Text × Text))
unfolding blocks_from
parse_search_replace_blocks text = blocks_from (length text + 1) text

unfoldable pub apply_search_replace : Text → Text → Result DiffError Edited
unfolding parse_search_replace_blocks apply_blocks
apply_search_replace patch_str original = do
  blocks ← parse_search_replace_blocks patch_str
  guard (not (length blocks == 0)) (invalid_patch (lit "No search/replace blocks found"))
  apply_blocks blocks (original, 0, 0)

module _ (c : Crypto) where
  abbrev pub compute_sha256 : Text → Text
  compute_sha256 t = c.hex_encode (c.sha256 t)

  -- The bytes of the file; a file that is not there has none.
  abbrev pub bytes_of : Text → Files → Text
  bytes_of path files = elim (lookup path files) [ none ↦ [] | some bytes ↦ bytes ]

  -- `if !exp.is_empty() && !actual_sha256.eq_ignore_ascii_case(exp)`
  abbrev pub hash_fits : Surroundings → PatchOptions → Text → Bool
  hash_fits w opts actual = elim opts.expected_sha256 [
    | none ↦ true
    | some expected ↦ text_eq (w.trim expected) [] || eq_ignore_ascii_case actual (w.trim expected)
  ]

  -- `fs::read`, where the file is there.
  abbrev pub read_file : Surroundings → Text → Files → Result DiffError Text
  read_file w path files = elim (lookup path files) [
    | none ↦ ok []
    | some bytes ↦ elim w.read_error [ none ↦ ok bytes | some e ↦ err (io e) ]
  ]

  unfoldable pub read_and_verify :
      Surroundings → Text → PatchOptions → Files → Result DiffError (Text × Text)
  read_and_verify w path opts files = do
    bytes ← read_file w path files
    let actual = compute_sha256 bytes
    guard (hash_fits w opts actual)
        (hash_mismatch path (elim opts.expected_sha256 [ none ↦ [] | some e ↦ w.trim e ]) actual)
    ok (w.lossy bytes, actual)

  abbrev pub outcome : Surroundings → Text → PatchOptions → Text → Edited → PatchApplyResult
  outcome w path opts original_sha256 (modified, added, removed) = record {
    patch_id = elim opts.patch_id [ none ↦ w.uuid | some id ↦ id ];
    file_path = path;
    success = true;
    lines_added = added;
    lines_removed = removed;
    original_sha256 = original_sha256;
    new_sha256 = compute_sha256 modified;
    modified_content = modified;
  }

  -- The commit and the result, once the new text is made.
  unfoldable pub committed :
      Surroundings
      → Text
      → PatchOptions
      → Files
      → PatchApplyResult
      → Result DiffError PatchApplyResult × Files
  unfolding commit_atomically
  committed w path opts files r =
      if opts.dry_run
      then (ok r, files)
      else let (done, files') = commit_atomically w path r.modified_content files in
        (done >>= λ u. ok r, files')

  -- The check and the edit, before anything is written.
  unfoldable pub prepare :
      (Text → Result DiffError Edited)
      → Surroundings
      → Text
      → PatchOptions
      → Files
      → Result DiffError PatchApplyResult
  unfolding read_and_verify
  prepare edit w path opts files = do
    (original, sha) ← read_and_verify w path opts files
    edited ← edit original
    ok (outcome w path opts sha edited)

  -- The common body of `apply_patch`, `apply_line_replacements` and `apply_full_content`: `edit` is
  -- what they do to the text in memory.
  unfoldable pub apply_edit :
      (Text → Result DiffError Edited)
      → Surroundings
      → Text
      → PatchOptions
      → Files
      → Result DiffError PatchApplyResult × Files
  unfolding prepare committed
  apply_edit edit w path opts files = elim (prepare edit w path opts files) [
    | err e ↦ (err e, files)
    | ok r ↦ committed w path opts files r
  ]

  -- `apply_full_content`
  unfoldable pub apply_full_content :
      Text → Surroundings → Text → PatchOptions → Files → Result DiffError PatchApplyResult × Files
  unfolding apply_edit text_lines
  apply_full_content new_content = apply_edit (λ original. ok (
    new_content,
    length (text_lines new_content) % 2 ^ 32,
    length (text_lines original) % 2 ^ 32,
  ))
