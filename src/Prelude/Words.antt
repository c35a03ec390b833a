-- ===== src/Prelude/Words.antt =====
-- Texts without their white space, and their words: `str::trim`, `split_whitespace`; `split`,
-- `split_once` and `str::parse::<usize>`.
use syntropy.Prelude.Tests.{ltb, leb, ◌==◌, if◌then◌else◌}
use Prim.Native.Nat.{ℕ, zero, suc, ◌+◌, ◌-◌, ◌*◌, ◌^◌}
use mathlib.Core.Bool.{Bool, true, false, not, ◌&&◌, ◌||◌}
use mathlib.Core.Option
use mathlib.Core.Option.{Option, none, some}
use mathlib.Core.List.{List, [], ◌∷◌}
use syntropy.Prelude.Lists.{length}
use syntropy.Prelude.Bytes.{Text, lit}
use syntropy.Prelude.Results.{Result, ok, err}

-- What stands behind a white space character (Unicode's `White_Space`, in UTF-8) that stands first.
unfoldable pub after_white? : Text → Option Text
after_white? [] = none
after_white? (a ∷ []) = if a == 32 || (leb 9 a && leb a 13) then some [] else none
after_white? (a ∷ b ∷ []) =
    if a == 32 || (leb 9 a && leb a 13)
    then some (b ∷ [])
    else if a == 0xc2 && (b == 0x85 || b == 0xa0)
    then some []
    else none
after_white? (a ∷ b ∷ c ∷ s) =
    if a == 32 || (leb 9 a && leb a 13)
    then some (b ∷ c ∷ s)
    else if a == 0xc2 && (b == 0x85 || b == 0xa0)
    then some (c ∷ s)
    else if a == 0xe1 && b == 0x9a && c == 0x80
    then some s
    else if a == 0xe2
        && b == 0x80
        && ((leb 0x80 c && leb c 0x8a) || c == 0xa8 || c == 0xa9 || c == 0xaf)
    then some s
    else if a == 0xe2 && b == 0x81 && c == 0x9f
    then some s
    else if a == 0xe3 && b == 0x80 && c == 0x80
    then some s
    else none

-- `s.trim_start()`. Each round passes a byte, so the length is fuel enough.
unfoldable pub trim_start_from : ℕ → Text → Text
unfolding after_white?
trim_start_from zero s = s
trim_start_from (suc fuel) s = elim (after_white? s) [ none ↦ s | some r ↦ trim_start_from fuel r ]

abbrev pub is_nil : Text → Bool
is_nil [] = true
is_nil (c ∷ s) = false

-- `s.trim_end()`: a suffix of white space is left out.
unfoldable pub trim_end : Text → Text
unfolding trim_start_from
trim_end [] = []
trim_end (c ∷ s) =
    let rest = trim_end s in
    if is_nil (trim_start_from (length (c ∷ s)) (c ∷ s)) then [] else c ∷ rest

-- `s.trim()`
unfoldable pub trim : Text → Text
unfolding trim_start_from trim_end
trim s = trim_end (trim_start_from (length s) s)

abbrev pub push_word : Text → List Text → List Text
push_word [] words = words
push_word (c ∷ w) words = (c ∷ w) ∷ words

-- The word with which the text begins, which may be empty, and the words behind it.
unfoldable pub words_from : ℕ → Text → Text × List Text
unfolding after_white?
words_from zero s = ([], [])
words_from (suc fuel) s = elim (after_white? s) [
  | some r ↦ let (w, ws) = words_from fuel r in ([], push_word w ws)
  | none ↦ elim s [ [] ↦ ([], []) | c ∷ r ↦ let (w, ws) = words_from fuel r in (c ∷ w, ws) ]
]

-- `s.split_whitespace()`. Each round passes a byte, so the length is fuel enough.
unfoldable pub split_whitespace : Text → List Text
unfolding words_from
split_whitespace s = let (w, ws) = words_from (length s) s in push_word w ws

-- `s.split_once(c)`
unfoldable pub split_once : ℕ → Text → Option (Text × Text)
split_once c [] = none
split_once c (d ∷ s) =
    let rest = split_once c s in
    if c == d then some ([], s) else Option.map (λ (before, after). (d ∷ before, after)) rest

-- `parse::<usize>` on 64 bits: the digits, with the messages of its errors.
unfoldable pub parse_digits : ℕ → Text → Result Text ℕ
parse_digits n [] = ok n
parse_digits n (c ∷ s) =
    let m = n * 10 + (c - 48) in
    let rest = parse_digits m s in
    if not (leb 48 c && leb c 57)
    then err (lit "invalid digit found in string")
    else if ltb m (2 ^ 64)
    then rest
    else err (lit "number too large to fit in target type")

-- A plus sign may stand before the digits.
unfoldable pub parse_usize : Text → Result Text ℕ
unfolding parse_digits
parse_usize [] = err (lit "cannot parse integer from empty string")
parse_usize (c ∷ []) = parse_digits 0 (c ∷ [])
parse_usize (c ∷ d ∷ s) = if c == 43 then parse_digits 0 (d ∷ s) else parse_digits 0 (c ∷ d ∷ s)
