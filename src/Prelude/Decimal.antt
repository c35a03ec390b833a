-- ===== src/Prelude/Decimal.antt =====
-- Numbers in decimal, as `to_string` prints them, and how they are read again.
use Prim.Native.Nat.{ℕ, zero, suc, ◌+◌, ◌-◌, ◌*◌, ◌/◌, ◌%◌, ◌^◌, ◌≤◌, ◌<◌}
use mathlib.Core.Path.{◌≡◌, refl, ap, ◌∙◌}
use mathlib.Core.Logic.{inl, inr, ◌≢◌}
use mathlib.Core.List.{[], ◌∷◌, ◌++◌}
use native.Mathlib.Omega.{arith}
use syntropy.Prelude.Tests.{ltb, if◌then◌else◌, Bool-cases, if_both}
use syntropy.Prelude.Bytes.{Text}
use syntropy.Prelude.Results.{ok, ◌>>=◌}
use syntropy.Prelude.Words.{parse_digits, parse_usize}

-- A number has at most as many digits as its value, so the value and one more is fuel enough.
unfoldable pub show_from : ℕ → ℕ → Text
show_from zero n = []
show_from (suc fuel) n =
    let rest = show_from fuel (n / 10) in
    if ltb n 10 then (48 + n) ∷ [] else rest ++ (48 + n % 10) ∷ []

unfoldable pub show : ℕ → Text
unfolding show_from
show n = show_from (suc n) n

abbrev pub IsDigits : Text → Type 0
IsDigits [] = Unit
IsDigits (c ∷ s) = (48 ≤ c) × (c ≤ 57) × IsDigits s

IsDigits-append : (s t : Text) → IsDigits s → IsDigits t → IsDigits (s ++ t)
IsDigits-append [] t a b = b
IsDigits-append (c ∷ s) t (lo, hi, a) b = (lo, hi, IsDigits-append s t a b)

show_from-IsDigits : (fuel n : ℕ) → IsDigits (show_from fuel n)
unfolding show_from
show_from-IsDigits zero n = tt
show_from-IsDigits (suc fuel) n = elim (Bool-cases (ltb n 10)) [
  | inl t ↦ rw t (omega arith, ground arith, tt)
  | inr f ↦ rw f (
      IsDigits-append (show_from fuel (n / 10)) ((48 + n % 10) ∷ [])
        (show_from-IsDigits fuel (n / 10)) (omega arith, omega arith, tt))
]

pub show-IsDigits : (n : ℕ) → IsDigits (show n)
unfolding show
show-IsDigits n = show_from-IsDigits (suc n) n

-- Reading goes on behind a first part.
parse_digits-append :
    (m : ℕ) (s t : Text) → parse_digits m (s ++ t) ≡ (parse_digits m s >>= λ k. parse_digits k t)
unfolding parse_digits
parse_digits-append m [] t = refl
parse_digits-append m (c ∷ s) t = ground (arith, parse_digits-append (m * 10 + (c - 48)) s t)

parse_digits-digit :
    (m d : ℕ) → d < 10 → m * 10 + d < 2 ^ 64 → parse_digits m ((48 + d) ∷ []) ≡ ok (m * 10 + d)
unfolding parse_digits
parse_digits-digit m d digit small = ground arith

parse_digits-show_from :
    (fuel n : ℕ) → n < fuel → n < 2 ^ 64 → parse_digits 0 (show_from fuel n) ≡ ok n
unfolding show_from parse_digits
parse_digits-show_from zero n h small = absurd (omega arith)
parse_digits-show_from (suc fuel) n h small = elim (Bool-cases (ltb n 10)) [
  | inl t ↦ rw t (parse_digits-digit 0 n (ground arith) (omega arith) ∙ ap ok (omega arith))
  | inr f ↦ rw f (
      rw
        (
          parse_digits-append 0 (show_from fuel (n / 10)) ((48 + n % 10) ∷ []),
          parse_digits-show_from fuel (n / 10) (ground arith) (omega arith),
        )
        (parse_digits-digit (n / 10) (n % 10) (omega arith) (omega arith) ∙ ap ok (omega arith)))
]

parse_digits-show : (n : ℕ) → n < 2 ^ 64 → parse_digits 0 (show n) ≡ ok n
unfolding show
parse_digits-show n small = parse_digits-show_from (suc n) n (omega arith) small

-- Digits that begin with a digit are read without a look at a sign.
parse_usize-digits : (s : Text) → IsDigits s → s ≢ [] → parse_usize s ≡ parse_digits 0 s
unfolding parse_usize
parse_usize-digits [] digits n = absurd (n refl)
parse_usize-digits (c ∷ []) digits n = refl
parse_usize-digits (c ∷ d ∷ s) (lo, hi, rest) n = ground arith

snoc-nonempty : (s : Text) (c : ℕ) → s ++ c ∷ [] ≢ []
snoc-nonempty [] c h = ground arith
snoc-nonempty (d ∷ s) c h = ground arith

show-nonempty : (n : ℕ) → show n ≢ []
unfolding show show_from
show-nonempty n =
    if_both (λ (s : Text). s ≢ []) (ltb n 10) (λ t h. ground arith)
      (λ f. snoc-nonempty (show_from n (n / 10)) (48 + n % 10))

-- A number that fits into 64 bits is read as it was printed.
pub parse_usize-show : (n : ℕ) → n < 2 ^ 64 → parse_usize (show n) ≡ ok n
parse_usize-show n small =
    parse_usize-digits (show n) (show-IsDigits n) (show-nonempty n) ∙ parse_digits-show n small
