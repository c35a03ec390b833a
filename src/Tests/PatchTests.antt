-- ===== src/Tests/PatchTests.antt =====
-- Line replacements and the text of a diff on a short file, and a worktree on a host that keeps a
-- list of paths.
use syntropy.Prelude.{
  ℕ, ◌≡◌, refl, none, List, [], ◌∷◌, ◌++◌, Text, lit, text_eq, lookup, insert, remove, ok, err,
  length, arith,
}
use syntropy.Prelude.{
  after_white?, trim_start_from, trim_end, trim, split_whitespace, words_from, split_once,
  parse_digits, parse_usize, find?, starts_with, ends_with, strip_prefix?, strip_suffix?,
  split_newlines, text_lines, join, replace, show,
}
use syntropy.Exec.Diff.{
  invalid_patch, out_of_bounds, context, deletion, addition, Hunk, apply_line, apply_lines,
  copy_lines, apply_hunk, apply_hunks, remaining, finish_text, apply_unified, newline_of,
  orig_lines_of,
}
use syntropy.Exec.Diff.Replacements.{
  LineReplacement, sort_by_start, check_target, check_replacement, replace_lines,
  apply_replacements, finish_replacements, apply_replacements_in_memory,
}
use syntropy.Exec.Diff.Replacements.Splices.{splice_all, apply_replacements-splices}
use syntropy.Exec.Diff.Parser.{
  parse_range, parse_ranges, parse_hunk_header, hunk_line, hunks_from, parse_unified_diff_hunks,
  apply_unified_diff_in_memory, edit_of,
}
use syntropy.Exec.Diff.Parser.Printed.{print_hunks, print_header, hunks_from-print}
use syntropy.Exec.Diff.Commit.{
  apply_search_replace, parse_search_replace_blocks, blocks_from, apply_blocks,
}

program : Unit {0}
unfolding text_eq lookup insert remove after_white? trim_start_from trim_end trim split_whitespace
    words_from split_once parse_digits parse_usize find? starts_with ends_with strip_prefix?
    strip_suffix? split_newlines text_lines join replace show apply_line apply_lines copy_lines
    apply_hunk apply_hunks remaining finish_text apply_unified sort_by_start check_target
    check_replacement replace_lines apply_replacements finish_replacements
    apply_replacements_in_memory splice_all parse_range parse_ranges parse_hunk_header hunk_line
    hunks_from parse_unified_diff_hunks apply_unified_diff_in_memory edit_of apply_search_replace
    parse_search_replace_blocks blocks_from apply_blocks
program = tt

abbrev at : ℕ → ℕ → Text → LineReplacement
at first last new = record {
  start_line = first;
  end_line = last;
  target_content = none;
  replacement_content = new;
}

-- Given out of order, the second removes two lines and the first puts in one.
abbrev replacements : List LineReplacement
replacements = at 3 4 (lit "C") ∷ at 1 0 (lit "new") ∷ []

replaces :
    apply_replacements_in_memory replacements (lit "a\nb\nc\nd\n") ≡ ok (lit "new\na\nb\nC\n", 2, 2)
unfolding program
replaces = refl

overlaps :
    apply_replacements_in_memory (at 1 2 (lit "x") ∷ at 2 3 (lit "y") ∷ []) (lit "a\nb\nc")
    ≡ err (invalid_patch (lit "Overlapping line replacements are not supported"))
unfolding program
overlaps = refl

outside :
    apply_replacements_in_memory (at 9 9 (lit "x") ∷ []) (lit "a\nb") ≡ err (out_of_bounds 9 2)
unfolding program
outside = refl

apply_replacements-splices_example :
    (made : List Text) × (rest : List Text) × (made ++ rest
      ≡ splice_all
          (length (orig_lines_of (lit "a\nb\nc\nd\n")))
          (sort_by_start replacements)
          (orig_lines_of (lit "a\nb\nc\nd\n")))
    × (lit "new\na\nb\nC\n" ≡ (
        let trailing = ends_with (lit "\n") (lit "a\nb\nc\nd\n") in
        let newline = newline_of (lit "a\nb\nc\nd\n") in
        finish_text newline trailing (join newline (made ++ remaining trailing rest))))
apply_replacements-splices_example =
    apply_replacements-splices replacements (lit "a\nb\nc\nd\n") (lit "new\na\nb\nC\n", 2, 2)
      replaces

abbrev hunk : Hunk
hunk = record {
  old_start = 1;
  old_count = 2;
  new_start = 1;
  new_count = 12;
  lines = context (lit "a") ∷ deletion (lit "b") ∷ addition (lit "@@ B") ∷ [];
}

printed : print_header hunk ≡ lit "@@ -1,2 +1,12 @@"
unfolding program
printed = refl

reads : parse_hunk_header (lit "@@ -7 +8,2 @@ fn main()") ≡ ok (7, 1, 8, 2)
unfolding program
reads = refl

overflows :
    parse_hunk_header (lit "@@ -18446744073709551616 +1 @@")
    ≡ err (invalid_patch (lit "number too large to fit in target type"))
unfolding program
overflows = refl

hunks_from-print_example :
    hunks_from (print_hunks (hunk ∷ hunk ∷ [])) none [] ≡ ok (hunk ∷ hunk ∷ [])
hunks_from-print_example = hunks_from-print (hunk ∷ hunk ∷ []) none [] (
  (omega arith, omega arith, omega arith, omega arith),
  ((omega arith, omega arith, omega arith, omega arith), tt),
)

-- A file header between two hunks is taken for lines of the first.
headers_are_lines :
    parse_unified_diff_hunks (lit "@@ -1 +1 @@\n a\n--- x\n+++ y\n")
    ≡ ok (
        record {
          old_start = 1;
          old_count = 1;
          new_start = 1;
          new_count = 1;
          lines = context (lit "a") ∷ deletion (lit "-- x") ∷ addition (lit "++ y") ∷ [];
        }
        ∷ [])
unfolding program
headers_are_lines = refl

edits :
    edit_of (lit "--- a\n+++ b\n@@ -1,2 +1,2 @@\n a\n-b\n+B\n") (lit "a\nb\nc\n")
    ≡ ok (lit "a\nB\nc\n", 1, 1)
unfolding program
edits = refl

edits_block :
    edit_of (lit "<<<<<<< SEARCH\nb\n=======\nB\n>>>>>>> REPLACE") (lit "a\nb\n")
    ≡ ok (lit "a\nB\n", 1, 1)
unfolding program
edits_block = refl
