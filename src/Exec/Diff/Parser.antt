-- ===== src/Exec/Diff/Parser.antt =====
-- diff.rs: the text of a patch: hunks of a unified diff and their headers, and the choice between a
-- diff and search/replace blocks.
pub mod Words
pub mod Printed
pub mod Others
use syntropy.Prelude.{
  Option-cases, ◌^◌, ℕ, zero, suc, ◌≡◌, ◌≢◌, ◌↔◌, ◌⊎◌, inl, inr, ◌≤◌, ◌<◌, ◌+◌, ◌-◌, ◌*◌, ◌%◌, ◌/◌,
  min, max, refl, sym, ap, ◌∙◌, Bool, true, false, not, ◌&&◌, ◌||◌, Option, none, some, List, [],
  ◌∷◌, ◌++◌, map, Text, lit, text_eq, text_eq_iff, text_eq_refl, Dict, lookup, insert, remove,
  Result, ok, err, ◌>>=◌, ◌>>◌, guard, with_ok, Result-cases, Bool-cases, ok-injective,
  if◌then◌else◌, length, take, drop, get_elem?, ltb, leb, ◌==◌, ==_iff, lookup-insert,
  lookup-remove, lookup-insert_self, dict_laws, arith, append-nil, append_assoc, length-append,
  text_lines, join, List-cases, if_both, drop-append, take-append, trim, split_whitespace,
  split_once, parse_usize, find?, starts_with, strip_prefix?, contains,
}
use syntropy.Security.Crypto.{Crypto}
use syntropy.Exec.Diff.{
  DiffError, invalid_patch, DiffLine, context, deletion, addition, Hunk, apply_unified,
}
use syntropy.Exec.Diff.Commit.{
  Edited, Surroundings, PatchOptions, PatchApplyResult, Files, apply_edit, apply_search_replace,
}

-- `.map_err(|e| DiffError::InvalidPatch(e.to_string()))`
abbrev pub usize_of : Text → Result DiffError ℕ
usize_of s = elim (parse_usize s) [ ok n ↦ ok n | err e ↦ err (invalid_patch e) ]

-- The closure `parse_range`.
unfoldable pub parse_range : Text → Text → Result DiffError (ℕ × ℕ)
unfolding strip_prefix? split_once parse_usize
parse_range r prefix = elim (strip_prefix? prefix r) [
  | none ↦
      err (invalid_patch (lit "Expected prefix '" ++ (prefix ++ (lit "' in '" ++ (r ++ lit "'")))))
  | some stripped ↦ elim (split_once b',' stripped) [
    | some (start_s, count_s) ↦
        usize_of start_s >>= λ start. usize_of count_s >>= λ count. ok (start, count)
    | none ↦ usize_of stripped >>= λ start. ok (start, 1)
  ]
]

-- The two first words.
unfoldable pub parse_ranges : Text → List Text → Result DiffError (ℕ × ℕ × ℕ × ℕ)
unfolding parse_range
parse_ranges middle [] = err (invalid_patch (lit "Invalid hunk ranges in: " ++ middle))
parse_ranges middle (w ∷ []) = err (invalid_patch (lit "Invalid hunk ranges in: " ++ middle))
parse_ranges middle (old ∷ new ∷ more) = do
  (old_start, old_count) ← parse_range old (lit "-")
  (new_start, new_count) ← parse_range new (lit "+")
  ok (old_start, old_count, new_start, new_count)

-- The second part of the line between the marks `@@`.
unfoldable pub parse_hunk_header : Text → Result DiffError (ℕ × ℕ × ℕ × ℕ)
unfolding parse_ranges find? trim split_whitespace
parse_hunk_header line = elim (find? (lit "@@") line) [
  | none ↦ err (invalid_patch (lit "Invalid hunk header: " ++ line))
  | some (before, after) ↦
      let middle = trim (elim (find? (lit "@@") after) [ none ↦ after | some (m, rest) ↦ m ]) in
      parse_ranges middle (split_whitespace middle)
]

-- What a line adds to the hunk that is open; the others are passed over.
unfoldable pub hunk_line : Text → Option DiffLine
unfolding strip_prefix?
hunk_line line = elim (strip_prefix? (lit " ") line) [
  | some rest ↦ some (context rest)
  | none ↦ elim (strip_prefix? (lit "-") line) [
    | some rest ↦ some (deletion rest)
    | none ↦ elim (strip_prefix? (lit "+") line) [ some rest ↦ some (addition rest) | none ↦ none ]
  ]
]

abbrev pub add_line : Option DiffLine → Hunk → Hunk
add_line none hunk = hunk
add_line (some l) hunk = record hunk { lines = hunk.lines ++ l ∷ [] }

abbrev pub new_hunk : ℕ × ℕ × ℕ × ℕ → Hunk
new_hunk (old_start, old_count, new_start, new_count) = record {
  old_start = old_start;
  old_count = old_count;
  new_start = new_start;
  new_count = new_count;
  lines = [];
}

-- The hunk that is open, if any, goes to the end of the others.
abbrev pub close_hunk : Option Hunk → List Hunk → List Hunk
close_hunk none hunks = hunks
close_hunk (some hunk) hunks = hunks ++ hunk ∷ []

unfoldable pub hunks_from : List Text → Option Hunk → List Hunk → Result DiffError (List Hunk)
unfolding starts_with parse_hunk_header hunk_line
hunks_from [] current_hunk hunks = ok (close_hunk current_hunk hunks)
hunks_from (line ∷ ls) current_hunk hunks = elim (starts_with (lit "@@ ") line) [
  | true ↦ elim (parse_hunk_header line) [
    | err e ↦ err e
    | ok header ↦ hunks_from ls (some (new_hunk header)) (close_hunk current_hunk hunks)
  ]
  | false ↦ elim current_hunk [
    | none ↦ hunks_from ls none hunks
    | some hunk ↦ hunks_from ls (some (add_line (hunk_line line) hunk)) hunks
  ]
]

unfoldable pub parse_unified_diff_hunks : Text → Result DiffError (List Hunk)
unfolding hunks_from text_lines
parse_unified_diff_hunks diff_str = hunks_from (text_lines diff_str) none []

-- `apply_unified_diff_in_memory`
unfoldable pub apply_unified_diff_in_memory : Text → Text → Result DiffError Edited
unfolding parse_unified_diff_hunks apply_unified
apply_unified_diff_in_memory diff_str original =
    parse_unified_diff_hunks diff_str >>= apply_unified original

-- `apply_patch`: the marker of a block chooses the form.
unfoldable pub edit_of : Text → Text → Result DiffError Edited
unfolding find? apply_search_replace apply_unified_diff_in_memory
edit_of patch_content original =
    if contains (lit "<<<<<<< SEARCH") patch_content
    then apply_search_replace patch_content original
    else apply_unified_diff_in_memory patch_content original

unfoldable pub apply_patch :
    Crypto
    → Text
    → Surroundings
    → Text
    → PatchOptions
    → Files
    → Result DiffError PatchApplyResult × Files
unfolding edit_of apply_edit
apply_patch c patch_content = apply_edit c (edit_of patch_content)
