-- ===== src/Exec/Diff/Replacements.antt =====
-- diff.rs: structured replacements of lines.
pub mod Splices
use syntropy.Prelude.{
  Option-cases, ◌^◌, ℕ, zero, suc, ◌≡◌, ◌≢◌, ◌↔◌, ◌⊎◌, inl, inr, ◌≤◌, ◌<◌, ◌+◌, ◌-◌, ◌*◌, ◌%◌, ◌/◌,
  min, max, refl, sym, ap, ◌∙◌, Bool, true, false, not, ◌&&◌, ◌||◌, Option, none, some, List, [],
  ◌∷◌, ◌++◌, map, Text, lit, text_eq, text_eq_iff, text_eq_refl, Dict, lookup, insert, remove,
  Result, ok, err, ◌>>=◌, ◌>>◌, guard, with_ok, Result-cases, Bool-cases, ok-injective,
  if◌then◌else◌, length, take, drop, get_elem?, ltb, leb, ◌==◌, ==_iff, lookup-insert,
  lookup-remove, lookup-insert_self, dict_laws, arith, append-nil, append_assoc, length-append,
  text_lines, join, List-cases, if_both, drop-append, take-append, replace, ends_with,
}
use syntropy.Exec.Diff.{
  DiffError, invalid_patch, out_of_bounds, context_mismatch, newline_of, orig_lines_of, remaining,
  finish_text,
}
use syntropy.Exec.Diff.Commit.{
  Edited, Surroundings, PatchOptions, PatchApplyResult, Files, apply_edit,
}
use syntropy.Security.Crypto.{Crypto}

-- Both lines count from 1, and the end is part of the range.
pub record LineReplacement : Type 0 where
  pub start_line : ℕ
  pub end_line : ℕ
  pub target_content : Option Text
  pub replacement_content : Text

-- `sort_by_key(|r| r.start_line)`, which is stable.
abbrev pub sort_in : LineReplacement → List LineReplacement → List LineReplacement
sort_in r [] = r ∷ []
sort_in r (s ∷ sorted) =
    if leb r.start_line s.start_line then r ∷ s ∷ sorted else s ∷ sort_in r sorted

unfoldable pub sort_by_start : List LineReplacement → List LineReplacement
sort_by_start [] = []
sort_by_start (r ∷ rs) = sort_in r (sort_by_start rs)

-- The lines that are made, the next line of the original, from 1, and the counters.
pub record Cursor : Type 0 where
  pub made : List Text
  pub cursor : ℕ
  pub lines_added : ℕ
  pub lines_removed : ℕ

abbrev pub normalized : Text → Text
normalized t = replace (lit "\r\n") (lit "\n") t

-- The check of the lines that are replaced, if the replacement says what they are.
unfoldable pub check_target : Text → List Text → LineReplacement → Result DiffError (Unit {0})
unfolding join replace text_eq
check_target newline actual_slice r = elim r.target_content [
  | none ↦ ok tt
  | some target ↦
      guard (text_eq (normalized (join newline actual_slice)) (normalized target))
        (context_mismatch r.start_line target (join newline actual_slice))
]

-- `r.end_line.min(total_lines)`
abbrev pub end_bounded : List Text → LineReplacement → ℕ
end_bounded orig_lines r = min r.end_line (length orig_lines)

-- What one round of the loop refuses.
unfoldable pub check_replacement :
    Text → List Text → LineReplacement → Cursor → Result DiffError (Unit {0})
unfolding check_target
check_replacement newline orig_lines r c = do
  let start = r.start_line
  let end = end_bounded orig_lines r
  let actual_slice = take (end - (start - 1)) (drop (start - 1) orig_lines)
  guard (leb c.cursor start) (invalid_patch (lit "Overlapping line replacements are not supported"))
  guard (leb start (length orig_lines + 1)) (out_of_bounds start (length orig_lines))
  if leb start end then check_target newline actual_slice r else ok tt

-- And what it makes of the lines. The counters are `u32`.
unfoldable pub replace_lines : List Text → LineReplacement → Cursor → Cursor
unfolding text_lines
replace_lines orig_lines r c =
    let start = r.start_line in
    let end = end_bounded orig_lines r in
    let new_lines = text_lines r.replacement_content in
    let untouched = take (start - c.cursor) (drop (c.cursor - 1) orig_lines) in
    record {
      made = c.made ++ (untouched ++ new_lines);
      cursor = if leb start end then end + 1 else start;
      lines_added = c.lines_added + length new_lines;
      lines_removed =
          if leb start end then c.lines_removed + ((end - start) + 1) else c.lines_removed;
    }

unfoldable pub apply_replacements :
    Text → List Text → List LineReplacement → Cursor → Result DiffError Cursor
unfolding check_replacement replace_lines
apply_replacements newline orig_lines [] c = ok c
apply_replacements newline orig_lines (r ∷ rs) c =
    check_replacement newline orig_lines r c
    >> apply_replacements newline orig_lines rs (replace_lines orig_lines r c)

abbrev pub at_start : Cursor
at_start = record { made = []; cursor = 1; lines_added = 0; lines_removed = 0 }

-- The rest of the original and the text that is made.
unfoldable pub finish_replacements : Text → Cursor → Edited
unfolding remaining finish_text join ends_with
finish_replacements original c =
    let newline = newline_of original in
    let trailing = ends_with (lit "\n") original in
    let rest = remaining trailing (drop (c.cursor - 1) (orig_lines_of original)) in
    (
      finish_text newline trailing (join newline (c.made ++ rest)),
      c.lines_added % 2 ^ 32,
      c.lines_removed % 2 ^ 32,
    )

unfoldable pub apply_replacements_in_memory : List LineReplacement → Text → Result DiffError Edited
unfolding apply_replacements sort_by_start finish_replacements
apply_replacements_in_memory replacements original =
    apply_replacements (newline_of original) (orig_lines_of original) (sort_by_start replacements)
      at_start
    >>= λ done. ok (finish_replacements original done)

-- `apply_line_replacements`
unfoldable pub apply_line_replacements :
    Crypto
    → List LineReplacement
    → Surroundings
    → Text
    → PatchOptions
    → Files
    → Result DiffError PatchApplyResult × Files
unfolding apply_edit
apply_line_replacements c replacements = apply_edit c (apply_replacements_in_memory replacements)
