-- ===== src/Prelude/Bytes.antt =====
-- Rust's `String`, `&str` and `Vec<u8>`: the list of the bytes. Every text of the program is one.
use Prim.Native.Nat.{zero, suc, ◌+◌, ◌/◌, ◌%◌, ◌^◌, ◌<◌, ℕ}
use Prim.Native.Char.{code}
use Prim.Native.String.{String}
use mathlib.Core.Path.{◌≡◌, refl}
use mathlib.Core.Logic.{◌↔◌}
use mathlib.Core.Bool.{Bool, true, false, ◌&&◌, ◌||◌}
use mathlib.Core.Option
use mathlib.Core.Option.{Option, none, some}
use mathlib.Core.List.{List, [], ◌∷◌, ◌++◌}
use native.Mathlib.Omega.{arith}
use syntropy.Prelude.Lists.{length}
use syntropy.Prelude.Tests.{◌==◌, ==_iff, ltb, leb, if◌then◌else◌}

abbrev pub Text : Type 0
Text = List ℕ

-- A literal of the source, as its bytes; the program's literals are ASCII.
abbrev pub lit : String → Text
lit String.[] = []
lit (String.◌∷◌ c s) = code c ∷ lit s

-- `a == b` on texts.
unfoldable pub text_eq : Text → Text → Bool
text_eq [] [] = true
text_eq [] (y ∷ ys) = false
text_eq (x ∷ xs) [] = false
text_eq (x ∷ xs) (y ∷ ys) = (x == y) && text_eq xs ys

pub text_eq_iff : (a b : Text) → (text_eq a b ≡ true) ↔ (a ≡ b)
unfolding text_eq
text_eq_iff [] [] = ground arith
text_eq_iff [] (y ∷ ys) = ground arith
text_eq_iff (x ∷ xs) [] = ground arith
text_eq_iff (x ∷ xs) (y ∷ ys) = ground (arith, text_eq_iff xs ys)

pub text_eq_refl : (a : Text) → text_eq a a ≡ true
text_eq_refl a = (text_eq_iff a a).1 refl

-- `s.strip_prefix(p)`.
unfoldable pub strip_prefix? : Text → Text → Option Text
strip_prefix? [] s = some s
strip_prefix? (c ∷ p) [] = none
strip_prefix? (c ∷ p) (d ∷ s) = if c == d then strip_prefix? p s else none

-- `s.starts_with(p)`.
unfoldable pub starts_with : Text → Text → Bool
starts_with [] s = true
starts_with (c ∷ p) [] = false
starts_with (c ∷ p) (d ∷ s) = (c == d) && starts_with p s

-- `s.strip_suffix(p)`: what stands before an end that is `p`.
unfoldable pub strip_suffix? : Text → Text → Option Text
strip_suffix? p [] = if text_eq p [] then some [] else none
strip_suffix? p (d ∷ s) =
    if text_eq p (d ∷ s) then some [] else Option.map (◌∷◌ d) (strip_suffix? p s)

-- `s.ends_with(p)`.
unfoldable pub ends_with : Text → Text → Bool
ends_with p [] = text_eq p []
ends_with p (d ∷ s) = if text_eq p (d ∷ s) then true else ends_with p s

-- `s.find(p)`: what stands before the first occurrence, and what stands after it.
unfoldable pub find? : Text → Text → Option (Text × Text)
unfolding strip_prefix?
find? p [] = elim (strip_prefix? p []) [ some r ↦ some ([], r) | none ↦ none ]
find? p (d ∷ s) = elim (strip_prefix? p (d ∷ s)) [
  | some r ↦ some ([], r)
  | none ↦ Option.map (λ (b, r). (d ∷ b, r)) (find? p s)
]

-- `strip_prefix` succeeds on exactly the texts that begin with the prefix.
pub strip_prefix?-eq-some : (p s r : Text) → (strip_prefix? p s ≡ some r) ↔ (s ≡ p ++ r)
unfolding strip_prefix?
strip_prefix?-eq-some [] s r = ground arith
strip_prefix?-eq-some (c ∷ p) [] r = ground arith
strip_prefix?-eq-some (c ∷ p) (d ∷ s) r = ground (arith, strip_prefix?-eq-some p s r)

-- `n.to_be_bytes()` of a 64-bit number: eight bytes, the highest first.
unfoldable pub be_bytes : ℕ → Text
be_bytes n =
    (n / 2 ^ 56 % 256)
    ∷ (n / 2 ^ 48 % 256)
    ∷ (n / 2 ^ 40 % 256)
    ∷ (n / 2 ^ 32 % 256)
    ∷ (n / 2 ^ 24 % 256)
    ∷ (n / 2 ^ 16 % 256)
    ∷ (n / 2 ^ 8 % 256)
    ∷ (n % 256)
    ∷ []

-- Every number of the list is a byte.
abbrev pub IsBytes : Text → Type 0
IsBytes [] = Unit
IsBytes (x ∷ xs) = (x < 256) × IsBytes xs

-- `s.contains(p)`.
abbrev pub contains : Text → Text → Bool
contains p s = elim (find? p s) [ none ↦ false | some r ↦ true ]

-- `s.replace(p, r)` for a pattern that is not empty: every occurrence from the left, none of which
-- overlap. Each round passes at least one byte, so the length is fuel enough.
unfoldable pub replace_from : ℕ → Text → Text → Text → Text
replace_from zero p r s = s
replace_from (suc fuel) p r [] = []
replace_from (suc fuel) p r (d ∷ s) = elim (strip_prefix? p (d ∷ s)) [
  | some rest ↦ r ++ replace_from fuel p r rest
  | none ↦ d ∷ replace_from fuel p r s
]

unfoldable pub replace : Text → Text → Text → Text
unfolding replace_from strip_prefix?
replace p r s = replace_from (length s) p r s

-- `a.eq_ignore_ascii_case(b)`.
abbrev pub lower : ℕ → ℕ
lower c = if leb b'A' c && leb c b'Z' then c + 32 else c

unfoldable pub eq_ignore_ascii_case : Text → Text → Bool
eq_ignore_ascii_case [] [] = true
eq_ignore_ascii_case [] (y ∷ ys) = false
eq_ignore_ascii_case (x ∷ xs) [] = false
eq_ignore_ascii_case (x ∷ xs) (y ∷ ys) = (lower x == lower y) && eq_ignore_ascii_case xs ys

pub eq_ignore_ascii_case_refl : (t : Text) → eq_ignore_ascii_case t t ≡ true
unfolding eq_ignore_ascii_case
eq_ignore_ascii_case_refl [] = refl
eq_ignore_ascii_case_refl (x ∷ xs) =
    ground (arith, eq_ignore_ascii_case_refl xs, ==_iff (lower x) (lower x))

-- `String::from_utf8`: the bytes that are still to come in a sequence, and the range of the next.
unfoldable pub utf8_from : ℕ → ℕ → ℕ → Text → Bool
utf8_from need lo hi [] = need == 0
utf8_from (suc need) lo hi (b ∷ s) = (leb lo b && leb b hi) && utf8_from need 0x80 0xbf s
utf8_from zero lo hi (b ∷ s) =
    (ltb b 0x80 || (leb 0xc2 b && leb b 0xf4))
    && utf8_from (if ltb b 0x80 then 0 else if ltb b 0xe0 then 1 else if ltb b 0xf0 then 2 else 3)
        (if b == 0xe0 then 0xa0 else if b == 0xf0 then 0x90 else 0x80)
        (if b == 0xed then 0x9f else if b == 0xf4 then 0x8f else 0xbf) s

unfoldable pub from_utf8 : Text → Option Text
unfolding utf8_from
from_utf8 s = if utf8_from 0 0x80 0xbf s then some s else none
