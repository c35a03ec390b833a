-- ===== src/Prelude/TextLines.antt =====
-- Texts and their lines: `str::lines`, `split('\n')` and `join`.
use Prim.Native.Nat.{ℕ}
use mathlib.Core.Option.{none, some}
use mathlib.Core.List.{List, [], ◌∷◌, ◌++◌}
use syntropy.Prelude.Tests.{◌==◌, if◌then◌else◌}
use syntropy.Prelude.Bytes.{Text, lit, strip_suffix?}

-- The line that is read, and the lines after it.
abbrev pub cons_byte : ℕ → List Text → List Text
cons_byte c [] = (c ∷ []) ∷ []
cons_byte c (l ∷ ls) = (c ∷ l) ∷ ls

-- `s.split('\n')`: the empty text has one line, the empty one.
unfoldable pub split_newlines : Text → List Text
split_newlines [] = [] ∷ []
split_newlines (c ∷ s) =
    let rest = split_newlines s in if c == 10 then [] ∷ rest else cons_byte c rest

-- `l.strip_suffix('\r').unwrap_or(l)`
abbrev pub without_cr : Text → Text
without_cr l = elim (strip_suffix? (lit "\r") l) [ none ↦ l | some m ↦ m ]

abbrev pub map_lines : (Text → Text) → List Text → List Text
map_lines f [] = []
map_lines f (l ∷ ls) = f l ∷ map_lines f ls

-- Without an empty last line.
abbrev pub without_last_empty : List Text → List Text
without_last_empty [] = []
without_last_empty ([] ∷ []) = []
without_last_empty ((c ∷ l) ∷ []) = (c ∷ l) ∷ []
without_last_empty (l ∷ m ∷ ls) = l ∷ without_last_empty (m ∷ ls)

-- `s.lines()`
unfoldable pub text_lines : Text → List Text
unfolding split_newlines strip_suffix?
text_lines s = map_lines without_cr (without_last_empty (split_newlines s))

-- `lines.join(newline)`
unfoldable pub join : Text → List Text → Text
join newline [] = []
join newline (l ∷ []) = l
join newline (l ∷ m ∷ ls) = l ++ (newline ++ join newline (m ∷ ls))
