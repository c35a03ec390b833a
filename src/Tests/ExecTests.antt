-- ===== src/Tests/ExecTests.antt =====
-- The jail on a file system of two directories, a screen of four bytes, and patches on a short file.
use syntropy.Prelude.{
  ◌⊎◌, ◌≡◌, ◌+◌, refl, true, false, not, ◌&&◌, none, some, List, [], ◌∷◌, ◌++◌, Text, lit, text_eq,
  lookup, insert, remove, Result, ok, err, if◌then◌else◌, length, text_lines, join, strip_prefix?,
  strip_suffix?, starts_with, ends_with, find?, eq_ignore_ascii_case, split_newlines,
}
use syntropy.Exec.RingBuffer.{new_buffer, write}
use syntropy.Exec.RingBuffer.Latest.{write_all}
use syntropy.Exec.Jail.{
  normalize_path_prefix, is_path_within, within_any, is_contained, walk_up, push_all, resolve_new,
  resolve_existing, resolve_path, validate_cwd,
}
use syntropy.Exec.Jail.Containment.{resolve_path-contained}
use syntropy.Exec.Diff.{
  DiffError, DiffLine, context, deletion, addition, Progress, apply_line, apply_lines, copy_lines,
  apply_hunk, apply_hunks, remaining, finish_text, apply_unified, hash_mismatch,
}
use syntropy.Exec.Diff.Hunks.{old_lines, new_lines, additions, deletions, apply_lines_complete}
use syntropy.Exec.Diff.Commit.{
  refused_on_windows, Surroundings, PatchOptions, PatchApplyResult, Files, Edited, hash_fits,
  compute_sha256, bytes_of, outcome, commit_atomically, committed, prepare, read_and_verify,
  apply_edit, apply_blocks, blocks_from, parse_search_replace_blocks, apply_search_replace,
}
use syntropy.Exec.Diff.Commit.Atomic.{IsLost, apply_edit_error, apply_edit_ok}
use syntropy.Tests.Samples.{toy_crypto}
use syntropy.Tests.FileSamples.{jail}

program : Unit {0}
unfolding text_eq lookup insert remove strip_prefix? strip_suffix? starts_with ends_with find?
    eq_ignore_ascii_case text_lines split_newlines join new_buffer write write_all
    normalize_path_prefix is_path_within within_any is_contained walk_up push_all resolve_new
    resolve_existing resolve_path validate_cwd apply_line apply_lines copy_lines apply_hunk
    apply_hunks remaining finish_text apply_unified old_lines new_lines additions deletions
    commit_atomically committed prepare read_and_verify apply_edit apply_blocks blocks_from
    parse_search_replace_blocks apply_search_replace
program = tt

resolves_new : resolve_path jail (lit "n") ≡ ok (lit "nw")
unfolding program
resolves_new = refl

resolves_root : resolve_path jail (lit "") ≡ ok (lit "w")
unfolding program
resolves_root = refl

resolve_path-contained_example : is_contained jail (lit "nw") ≡ true
resolve_path-contained_example = resolve_path-contained jail (lit "n") (lit "nw") resolves_new

abbrev change : List DiffLine
change = context (lit "a") ∷ deletion (lit "b") ∷ addition (lit "B") ∷ []

abbrev start : Progress
start = record {
  result_lines = [];
  orig_idx = 0;
  rest = lit "a" ∷ lit "b" ∷ lit "c" ∷ [];
  lines_added = 0;
  lines_removed = 0;
}

abbrev ended : Progress
ended = record {
  result_lines = lit "a" ∷ lit "B" ∷ [];
  orig_idx = 2;
  rest = lit "c" ∷ [];
  lines_added = 1;
  lines_removed = 1;
}

applies : apply_lines change start ≡ ok ended
unfolding program
applies = refl

-- A whole diff, on a file with a newline at its end.
patches :
    apply_unified
      (lit "a\nb\nc\n")
      (record { old_start = 1; old_count = 2; new_start = 1; new_count = 2; lines = change } ∷ [])
    ≡ ok (lit "a\nB\nc\n", 1, 1)
unfolding program
patches = refl

apply_lines_complete_example :
    apply_lines change start
    ≡ ok (record {
      result_lines = [] ++ new_lines change;
      orig_idx = 0 + length (old_lines change);
      rest = lit "c" ∷ [];
      lines_added = 0 + additions change;
      lines_removed = 0 + deletions change;
    })
apply_lines_complete_example =
    apply_lines_complete change start (lit "c" ∷ []) (unfold program in refl)

abbrev at_end : Progress
at_end = record start { rest = [] }

abbrev surroundings : Surroundings
surroundings = record {
  read_error = none;
  failure = none;
  shadow_path = lit ".f.tmp";
  uuid = lit "u";
  trim = λ t. t;
  lossy = λ t. t;
}

abbrev options : PatchOptions
options = record {
  patch_id = none;
  expected_sha256 = some (lit "00");
  dry_run = false;
  create_parents = false;
}

abbrev plain : PatchOptions
plain = record { patch_id = none; expected_sha256 = none; dry_run = false; create_parents = false }

abbrev files : Files
files = (lit "f", lit "ab") ∷ []

abbrev replace_b : Text → Result DiffError Edited
replace_b original = apply_blocks ((lit "b", lit "c") ∷ []) (original, 0, 0)

-- The parser and the edit together.
replaces :
    apply_search_replace (lit "<<<<<<< SEARCH\nb=======\nc>>>>>>> REPLACE\n") (lit "ab")
    ≡ ok (lit "ac", 1, 1)
unfolding program
replaces = refl

mismatch :
    (apply_edit toy_crypto replace_b surroundings (lit "f") options files).0
    ≡ err (hash_mismatch (lit "f") (lit "00") (compute_sha256 toy_crypto (lit "ab")))
unfolding program
mismatch = refl

apply_edit_error_example :
    let after = (apply_edit toy_crypto replace_b surroundings (lit "f") options files).1 in
    (lookup (lit "f") after ≡ lookup (lit "f") files)
    ⊎ IsLost surroundings (lit "f") (lit "f") after
apply_edit_error_example =
    apply_edit_error toy_crypto replace_b surroundings (lit "f") (lit "f") options files
      (hash_mismatch (lit "f") (lit "00") (compute_sha256 toy_crypto (lit "ab")))
      (unfold program in refl) mismatch

abbrev patched : PatchApplyResult
patched =
    outcome toy_crypto surroundings (lit "f") plain (compute_sha256 toy_crypto (lit "ab"))
      (lit "ac", 1, 1)

succeeds : (apply_edit toy_crypto replace_b surroundings (lit "f") plain files).0 ≡ ok patched
unfolding program
succeeds = refl

apply_edit_ok_example :
    (hash_fits toy_crypto surroundings plain
        (compute_sha256 toy_crypto (bytes_of toy_crypto (lit "f") files))
      ≡ true)
    × (replace_b (bytes_of toy_crypto (lit "f") files) ≡ ok (lit "ac", 1, 1))
    × (patched.new_sha256 ≡ compute_sha256 toy_crypto (lit "ac"))
    × ((k : Text)
        → lookup k (apply_edit toy_crypto replace_b surroundings (lit "f") plain files).1
          ≡ (if not false && text_eq (lit "f") k then some (lit "ac") else lookup k files))
apply_edit_ok_example =
    apply_edit_ok toy_crypto replace_b surroundings (lit "f") plain files patched succeeds

-- On Windows the file is gone when both renames are refused.
lost_file :
    lookup
      (lit "f")
      (commit_atomically
        (record surroundings { failure = some (refused_on_windows true (some (lit "denied"))) })
        (lit "f")
        (lit "new")
        files).1
    ≡ none
unfolding program
lost_file = refl
