-- ===== src/Exec/Diff/Replacements/Splices.antt =====
-- diff.rs: the one pass over the lines, and the replacements one by one.
use syntropy.Prelude.{
  ℕ, suc, ◌≡◌, inl, inr, ◌≤◌, ◌+◌, ◌-◌, min, max, refl, sym, ap, ◌∙◌, Bool, true, false, List, [],
  ◌∷◌, ◌++◌, Text, lit, ok, guard, with_ok, Bool-cases, length, take, drop, leb, arith,
  append_assoc, text_lines, join, ends_with, drop-take, drop-append_le, take-append_le, length-take,
  take-take,
}
use syntropy.Exec.Diff.Replacements.{
  at_start, finish_replacements, at_start, remaining, finish_text, newline_of, sort_by_start,
  orig_lines_of, Edited, apply_replacements_in_memory, apply_replacements, Cursor,
  check_replacement, replace_lines, LineReplacement,
}

-- One replacement alone: the lines before its start, its own lines, and those behind its end, where
-- the end is at most the number of lines of the original.
abbrev pub splice : ℕ → LineReplacement → List Text → List Text
splice total r lines =
    take (r.start_line - 1) lines
    ++ (text_lines r.replacement_content
        ++ drop (max (r.start_line - 1) (min r.end_line total)) lines)

-- The replacements one after the other, the last first, so that none moves the lines of another.
unfoldable pub splice_all : ℕ → List LineReplacement → List Text → List Text
splice_all total [] lines = lines
splice_all total (r ∷ rs) lines = splice total r (splice_all total rs lines)

-- A splice behind the first lines leaves them, and what it makes of the others.
splice_parts :
    (a s e k : ℕ) (orig lines new : List Text)
    → s ≡ a + k
    → s ≤ e
    → s ≤ length orig
    → take e lines ≡ take e orig
    → (take a (take s lines ++ (new ++ drop e lines)) ≡ take a orig)
      × (drop a (take s lines ++ (new ++ drop e lines))
          ≡ take k (drop a orig) ++ (new ++ drop e lines))
splice_parts a s e k orig lines new at below inside same =
    let front : take s lines ≡ take s orig =
      sym (take-take s e lines below) ∙ ap (take s) same ∙ take-take s e orig below in
    let long : length (take s orig) ≡ s = omega (arith, length-take s orig) in
    let reach : a ≤ length (take s orig) = omega (arith, long) in
    rw front (
      take-append_le a (take s orig) (new ++ drop e lines) reach ∙ take-take a s orig (omega arith),
      drop-append_le a (take s orig) (new ++ drop e lines) reach
          ∙ ap (λ t. t ++ (new ++ drop e lines)) (drop-take a s k orig at),
    )

guard-ok : {E : Type 0} (b : Bool) (e : E) (u : Unit {0}) → guard b e ≡ ok u → b ≡ true
guard-ok true e u h = refl
guard-ok false e u h = absurd (ground arith)

-- A replacement that is not refused starts behind the one before, and inside the file or just
-- behind it.
check_replacement-bounds :
    (newline : Text) (orig : List Text) (r : LineReplacement) (c : Cursor) (u : Unit {0})
    → check_replacement newline orig r c ≡ ok u
    → (c.cursor ≤ r.start_line) × (r.start_line ≤ length orig + 1)
unfolding check_replacement
check_replacement-bounds newline orig r c u h = elim (Bool-cases (leb c.cursor r.start_line)) [
  | inr f ↦ absurd (ground (arith, f))
  | inl t ↦ elim (Bool-cases (leb r.start_line (length orig + 1))) [
    | inr f ↦ absurd (ground (arith, t, f))
    | inl t' ↦ (ground arith, ground arith)
  ]
]

-- Where it stops reading the original.
replace_lines-cursor :
    (orig : List Text) (r : LineReplacement) (c : Cursor)
    → 1 ≤ r.start_line
    → (replace_lines orig r c).cursor ≡ suc (max (r.start_line - 1) (min r.end_line (length orig)))
unfolding replace_lines
replace_lines-cursor orig r c h = ground arith

-- The pass from a place in the original: it leaves the lines before, and makes of the others what
-- the splices make of them.
apply_replacements-splice_all :
    (newline : Text) (orig : List Text) (rs : List LineReplacement) (c c' : Cursor)
    → 1 ≤ c.cursor
    → apply_replacements newline orig rs c ≡ ok c'
    → (take (c.cursor - 1) (splice_all (length orig) rs orig) ≡ take (c.cursor - 1) orig)
      × (c'.made ++ drop (c'.cursor - 1) orig
          ≡ c.made ++ drop (c.cursor - 1) (splice_all (length orig) rs orig))
unfolding apply_replacements splice_all replace_lines
apply_replacements-splice_all newline orig [] c c' positive h = (refl, ground (arith, h))
apply_replacements-splice_all newline orig (r ∷ rs) c c' positive h =
    with_ok (check_replacement newline orig r c)
      (λ _. apply_replacements newline orig rs (replace_lines orig r c)) h
      (λ u checked rest.
        let s = r.start_line in
        let (above, inside) = check_replacement-bounds newline orig r c u checked in
        let next = replace_lines orig r c in
        let e = max (s - 1) (min r.end_line (length orig)) in
        let stops = replace_lines-cursor orig r c (omega (arith, positive, above)) in
        let at : next.cursor - 1 ≡ e = omega (arith, stops) in
        let lines = splice_all (length orig) rs orig in
        let untouched = take (s - c.cursor) (drop (c.cursor - 1) orig) in
        let new = text_lines r.replacement_content in
        let (before, after) =
          apply_replacements-splice_all newline orig rs next c' (omega (arith, stops)) rest in
        let (same, made) =
          splice_parts (c.cursor - 1) (s - 1) e (s - c.cursor) orig lines new
            (omega (arith, positive, above)) (omega arith) (omega (arith, inside))
            (ap (λ k. take k lines) (sym at) ∙ before ∙ ap (λ k. take k orig) at) in
        (
          same,
          after
              ∙ ap (λ k. next.made ++ drop k lines) at
              ∙ append_assoc c.made (untouched ++ new) (drop e lines)
              ∙ ap (◌++◌ c.made) (append_assoc untouched new (drop e lines) ∙ sym made),
        ))

-- Replacements that succeed come out as if each were made alone in the order of their starts, the
-- last one first: these are the lines that are joined, where an empty last line behind a newline is
-- left out and the newline put back.
pub apply_replacements-splices :
    (replacements : List LineReplacement) (original : Text) (edited : Edited)
    → apply_replacements_in_memory replacements original ≡ ok edited
    → (made : List Text) × (rest : List Text) × (made ++ rest
        ≡ splice_all
            (length (orig_lines_of original))
            (sort_by_start replacements)
            (orig_lines_of original))
      × (edited.0 ≡ (
          let trailing = ends_with (lit "\n") original in
          let newline = newline_of original in
          finish_text newline trailing (join newline (made ++ remaining trailing rest))))
unfolding apply_replacements_in_memory finish_replacements
apply_replacements-splices replacements original edited h =
    let newline = newline_of original in
    let lines = orig_lines_of original in
    let sorted = sort_by_start replacements in
    with_ok (apply_replacements newline lines sorted at_start)
      (λ done. ok (finish_replacements original done)) h
      (λ done applied rest. (
        done.made,
        drop (done.cursor - 1) lines,
        (apply_replacements-splice_all newline lines sorted at_start done (omega arith) applied).1,
        ground (arith, rest),
      ))
