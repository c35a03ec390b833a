-- ===== src/Exec/Diff/Parser/Printed.antt =====
-- diff.rs: unified diffs, printed and read.
use syntropy.Prelude.{
  ◌^◌, ℕ, ◌≡◌, inl, ◌≤◌, ◌<◌, refl, sym, ap, ◌∙◌, Option, some, List, [], ◌∷◌, ◌++◌, Text, lit, ok,
  arith, append-nil, append_assoc, split_once, strip_prefix?, show, show-IsDigits, IsDigits,
  parse_usize-show, find?, trim, split_whitespace, starts_with,
}
use syntropy.Exec.Diff.{DiffLine, context, deletion, addition, Hunk}
use syntropy.Exec.Diff.Parser.Words.{
  IsPlain, IsPlain-append, IsSpaced, IsSpaced-append, plain-IsSpaced, trim_printed,
  split_whitespace_printed, find?-before,
}
use syntropy.Exec.Diff.Parser.{
  add_line, hunk_line, hunks_from, close_hunk, parse_ranges, parse_hunk_header, parse_range,
}

-- A range as a diff prints it, with its mark.
abbrev pub print_range : Text → ℕ → ℕ → Text
print_range mark start count = mark ++ (show start ++ (lit "," ++ show count))

abbrev pub print_header : Hunk → Text
print_header h =
    lit "@@ "
    ++ (print_range (lit "-") h.old_start h.old_count
        ++ (lit " " ++ (print_range (lit "+") h.new_start h.new_count ++ lit " @@")))

abbrev pub print_line : DiffLine → Text
print_line (context t) = lit " " ++ t
print_line (deletion t) = lit "-" ++ t
print_line (addition t) = lit "+" ++ t

abbrev pub print_lines : List DiffLine → List Text
print_lines [] = []
print_lines (l ∷ ls) = print_line l ∷ print_lines ls

abbrev pub print_hunks : List Hunk → List Text
print_hunks [] = []
print_hunks (h ∷ hs) = print_header h ∷ (print_lines h.lines ++ print_hunks hs)

-- The numbers of a hunk fit into 64 bits.
abbrev pub IsSmall : Hunk → Type 0
IsSmall h =
    (h.old_start < 2 ^ 64)
    × (h.old_count < 2 ^ 64)
    × (h.new_start < 2 ^ 64)
    × (h.new_count < 2 ^ 64)

abbrev pub IsSmallAll : List Hunk → Type 0
IsSmallAll [] = Unit
IsSmallAll (h ∷ hs) = IsSmall h × IsSmallAll hs

digits-IsPlain : (s : Text) → IsDigits s → IsPlain s
digits-IsPlain [] h = tt
digits-IsPlain (c ∷ s) (lo, hi, h) = (omega (arith, lo), omega (arith, hi), digits-IsPlain s h)

print_range-IsPlain :
    (mark start count : ℕ) → 33 ≤ mark → mark < 64 → IsPlain (print_range (mark ∷ []) start count)
print_range-IsPlain mark start count lo hi = (
  lo,
  hi,
  IsPlain-append (show start) (44 ∷ show count) (digits-IsPlain (show start) (show-IsDigits start))
      (omega arith, omega arith, digits-IsPlain (show count) (show-IsDigits count)),
)

split_once-digits : (s t : Text) → IsDigits s → split_once 44 (s ++ 44 ∷ t) ≡ some (s, t)
unfolding split_once
split_once-digits [] t h = refl
split_once-digits (c ∷ s) t (lo, hi, h) = ground (arith, split_once-digits s t h)

parse_range-print :
    (mark start count : ℕ)
    → start < 2 ^ 64
    → count < 2 ^ 64
    → parse_range (print_range (mark ∷ []) start count) (mark ∷ []) ≡ ok (start, count)
unfolding parse_range strip_prefix?
parse_range-print mark start count small small' = ground (
  arith,
  split_once-digits (show start) (show count) (show-IsDigits start),
  parse_usize-show start small,
  parse_usize-show count small',
)

-- A header whose marks stand around a text.
parse_hunk_header-marks :
    (m : Text)
    → IsSpaced m
    → parse_hunk_header (lit "@@" ++ (m ++ lit "@@"))
      ≡ parse_ranges (trim m) (split_whitespace (trim m))
unfolding parse_hunk_header find? strip_prefix?
parse_hunk_header-marks m h = rw (find?-before m [] h) refl

-- The header of a hunk is read as its numbers.
pub parse_hunk_header-print :
    (h : Hunk)
    → IsSmall h
    → parse_hunk_header (print_header h) ≡ ok (h.old_start, h.old_count, h.new_start, h.new_count)
unfolding parse_ranges
parse_hunk_header-print h (s1, s2, s3, s4) =
    let v = show h.old_start ++ (lit "," ++ show h.old_count) in
    let w = show h.new_start ++ (lit "," ++ show h.new_count) in
    let old = b'-' ∷ v in
    let new = b'+' ∷ w in
    let m = 32 ∷ (old ++ 32 ∷ (new ++ 32 ∷ [])) in
    let pv = print_range-IsPlain b'-' h.old_start h.old_count (omega arith) (omega arith) in
    let pw = print_range-IsPlain b'+' h.new_start h.new_count (omega arith) (omega arith) in
    let spaced =
      IsSpaced-append old (32 ∷ (new ++ 32 ∷ [])) (plain-IsSpaced old pv)
        (inl refl, IsSpaced-append new (32 ∷ []) (plain-IsSpaced new pw) (inl refl, tt)) in
    let apart : m ++ lit "@@" ≡ 32 ∷ (old ++ 32 ∷ (new ++ lit " @@")) = ap (◌∷◌ 32) (
      append_assoc old (32 ∷ (new ++ 32 ∷ [])) (lit "@@")
      ∙ ap (λ t. old ++ 32 ∷ t) (append_assoc new (32 ∷ []) (lit "@@"))) in
    let trimmed = trim_printed b'-' b'+' v w pv pw in
    let words = split_whitespace_printed b'-' b'+' v w pv pw in
    ap (λ t. parse_hunk_header (lit "@@" ++ t)) (sym apart)
    ∙ parse_hunk_header-marks m (inl refl, spaced)
    ∙ ap (λ t. parse_ranges t (split_whitespace t)) trimmed
    ∙ ap (parse_ranges (old ++ 32 ∷ new)) words
    ∙ rw
        (
          parse_range-print b'-' h.old_start h.old_count s1 s2,
          parse_range-print b'+' h.new_start h.new_count s3 s4,
        )
        refl

hunks_from-line :
    (l : DiffLine) (more : List Text) (h : Hunk) (hunks : List Hunk)
    → hunks_from (print_line l ∷ more) (some h) hunks
      ≡ hunks_from more (some (add_line (some l) h)) hunks
unfolding hunks_from starts_with hunk_line strip_prefix?
hunks_from-line (context t) more h hunks = refl
hunks_from-line (deletion t) more h hunks = refl
hunks_from-line (addition t) more h hunks = refl

-- The lines of a hunk go to the hunk that is open.
hunks_from-lines :
    (ls : List DiffLine) (more : List Text) (h : Hunk) (hunks : List Hunk)
    → hunks_from (print_lines ls ++ more) (some h) hunks
      ≡ hunks_from more (some (record h { lines = h.lines ++ ls })) hunks
hunks_from-lines [] more h hunks =
    ap (λ ls. hunks_from more (some (record h { lines = ls })) hunks) (sym (append-nil h.lines))
hunks_from-lines (l ∷ ls) more h hunks =
    hunks_from-line l (print_lines ls ++ more) h hunks
    ∙ hunks_from-lines ls more (record h { lines = h.lines ++ l ∷ [] }) hunks
    ∙ ap (λ ks. hunks_from more (some (record h { lines = ks })) hunks)
        (append_assoc h.lines (l ∷ []) ls)

hunks_from-header :
    (h : Hunk) (more : List Text) (open_hunk : Option Hunk) (hunks : List Hunk)
    → IsSmall h
    → hunks_from (print_header h ∷ more) open_hunk hunks
      ≡ hunks_from more (some (record h { lines = [] })) (close_hunk open_hunk hunks)
unfolding hunks_from starts_with
hunks_from-header h more open_hunk hunks small =
    rw (hunks_from, parse_hunk_header-print h small) refl

-- The lines of a unified diff are read as the hunks that were printed, behind those that are read
-- already, where their numbers fit into 64 bits.
pub hunks_from-print :
    (hs : List Hunk) (open_hunk : Option Hunk) (hunks : List Hunk)
    → IsSmallAll hs
    → hunks_from (print_hunks hs) open_hunk hunks ≡ ok (close_hunk open_hunk hunks ++ hs)
unfolding hunks_from
hunks_from-print [] open_hunk hunks small = ap ok (sym (append-nil (close_hunk open_hunk hunks)))
hunks_from-print (h ∷ hs) open_hunk hunks (small, rest) =
    let done = close_hunk open_hunk hunks in
    hunks_from-header h (print_lines h.lines ++ print_hunks hs) open_hunk hunks small
    ∙ hunks_from-lines h.lines (print_hunks hs) (record h { lines = [] }) done
    ∙ hunks_from-print hs (some h) done rest
    ∙ ap ok (append_assoc done (h ∷ []) hs)
