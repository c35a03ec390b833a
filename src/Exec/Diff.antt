-- ===== src/Exec/Diff.antt =====
-- diff.rs: patches on the text of a file, and their commit.
pub mod Hunks
pub mod Commit
pub mod Replacements
pub mod Parser
use syntropy.Prelude.{
  Option-cases, ◌^◌, ℕ, zero, suc, ◌≡◌, ◌≢◌, ◌↔◌, ◌⊎◌, inl, inr, ◌≤◌, ◌<◌, ◌+◌, ◌-◌, ◌*◌, ◌%◌, ◌/◌,
  min, max, refl, sym, ap, ◌∙◌, Bool, true, false, not, ◌&&◌, ◌||◌, Option, none, some, List, [],
  ◌∷◌, ◌++◌, map, Text, lit, text_eq, text_eq_iff, text_eq_refl, Dict, lookup, insert, remove,
  Result, ok, err, ◌>>=◌, ◌>>◌, guard, with_ok, Result-cases, Bool-cases, ok-injective,
  if◌then◌else◌, length, take, drop, get_elem?, ltb, leb, ◌==◌, ==_iff, lookup-insert,
  lookup-remove, lookup-insert_self, dict_laws, arith,
}
use syntropy.Prelude.{
  contains, ends_with, text_lines, split_newlines, without_cr, map_lines, join, strip_prefix?,
  starts_with, find?,
}

pub data DiffError : Type 0 where
  file_not_found : Text → DiffError
  hash_mismatch : Text → Text → Text → DiffError
  context_mismatch : ℕ → Text → Text → DiffError
  invalid_patch : Text → DiffError
  out_of_bounds : ℕ → ℕ → DiffError
  io : Text → DiffError

pub data DiffLine : Type 0 where
  context deletion addition : Text → DiffLine

pub record Hunk : Type 0 where
  pub old_start : ℕ
  pub old_count : ℕ
  pub new_start : ℕ
  pub new_count : ℕ
  pub lines : List DiffLine

-- How far a diff has been applied: the lines that are made, the index of the next line of the
-- original, the original from there, and the counters.
pub record Progress : Type 0 where
  pub result_lines : List Text
  pub orig_idx : ℕ
  pub rest : List Text
  pub lines_added : ℕ
  pub lines_removed : ℕ

abbrev pub emit : Text → Progress → Progress
emit text p = record p { result_lines = p.result_lines ++ text ∷ [] }

abbrev pub skip : List Text → Progress → Progress
skip rest p = record p { orig_idx = p.orig_idx + 1; rest = rest }

-- `if actual != text { return Err(..) }`
abbrev pub expect : Text → Text → Progress → Result DiffError Progress
expect actual text p =
    if text_eq actual text then ok p else err (context_mismatch (p.orig_idx + 1) text actual)

-- The arms of the `match` on a line, where the original has a line left and where it has none.
unfoldable pub apply_line : DiffLine → Progress → Result DiffError Progress
apply_line (context text) p = elim p.rest [
  | [] ↦ ok (emit text p)
  | actual ∷ rest ↦ expect actual text p >>= λ q. ok (skip rest (emit text q))
]
apply_line (deletion text) p = elim p.rest [
  | [] ↦ ok (record p { lines_removed = p.lines_removed + 1 })
  | actual ∷ rest ↦ expect actual text p >>= λ q.
      ok (skip rest (record q { lines_removed = q.lines_removed + 1 }))
]
apply_line (addition text) p = ok (record (emit text p) { lines_added = p.lines_added + 1 })

unfoldable pub apply_lines : List DiffLine → Progress → Result DiffError Progress
unfolding apply_line
apply_lines [] p = ok p
apply_lines (l ∷ ls) p = apply_line l p >>= apply_lines ls

-- `while orig_idx < target_start && orig_idx < orig_lines.len()`: as many lines as are left.
unfoldable pub copy_lines : ℕ → Progress → Progress
copy_lines n p = record p {
  result_lines = p.result_lines ++ take n p.rest;
  orig_idx = p.orig_idx + min n (length p.rest);
  rest = drop n p.rest;
}

-- The hunk's start is 1-indexed.
unfoldable pub apply_hunk : Hunk → Progress → Result DiffError Progress
unfolding apply_lines copy_lines
apply_hunk hunk p = apply_lines hunk.lines (copy_lines ((hunk.old_start - 1) - p.orig_idx) p)

unfoldable pub apply_hunks : List Hunk → Progress → Result DiffError Progress
unfolding apply_hunk
apply_hunks [] p = ok p
apply_hunks (h ∷ hs) p = apply_hunk h p >>= apply_hunks hs

-- The rest of the original; its last line is left out if it is empty and stands behind a newline.
unfoldable pub remaining : Bool → List Text → List Text
remaining trailing [] = []
remaining trailing (l ∷ []) = if text_eq l [] && trailing then [] else l ∷ []
remaining trailing (l ∷ m ∷ ls) = l ∷ remaining trailing (m ∷ ls)

abbrev pub newline_of : Text → Text
newline_of original = if contains (lit "\r\n") original then lit "\r\n" else lit "\n"

abbrev pub orig_lines_of : Text → List Text
orig_lines_of original = map_lines without_cr (split_newlines original)

-- The newline at the end of the output.
unfoldable pub finish_text : Text → Bool → Text → Text
finish_text newline wanted output =
    if wanted && not (ends_with newline output) && not (text_eq output [])
    then output ++ newline
    else output

-- The counters are `u32`.
unfoldable pub apply_unified : Text → List Hunk → Result DiffError (Text × ℕ × ℕ)
unfolding apply_hunks remaining finish_text
apply_unified original hunks = do
  let start : Progress = record {
    result_lines = [];
    orig_idx = 0;
    rest = orig_lines_of original;
    lines_added = 0;
    lines_removed = 0;
  }
  let trailing = ends_with (lit "\n") original
  let newline = newline_of original
  guard (not (length hunks == 0)) (invalid_patch (lit "No valid unified diff hunks found"))
  done ← apply_hunks hunks start
  let added = done.lines_added % 2 ^ 32
  let output = join newline (done.result_lines ++ remaining trailing done.rest)
  ok (finish_text newline (trailing || ltb 0 added) output, added, done.lines_removed % 2 ^ 32)
