-- ===== src/Prelude/Affixes.antt =====
-- What the tests for the beginning and the end of a text decide.
use Prim.Native.Nat.{ℕ}
use mathlib.Core.Path.{◌≡◌, refl, ap}
use mathlib.Core.Logic.{inl, inr}
use mathlib.Core.Bool.{true, false}
use mathlib.Core.Option.{some}
use mathlib.Core.List.{[], ◌∷◌, ◌++◌}
use native.Mathlib.Omega.{arith}
use syntropy.Prelude.Lists.{length, length-append}
use syntropy.Prelude.Tests.{Bool-cases, Option-cases}
use syntropy.Prelude.Bytes.{
  Text, text_eq, text_eq_iff, text_eq_refl, starts_with, ends_with, strip_suffix?,
}

pub starts_with-append : (p r : Text) → starts_with p (p ++ r) ≡ true
unfolding starts_with
starts_with-append [] r = refl
starts_with-append (c ∷ p) r = ground (arith, starts_with-append p r)

pub starts_with_sound : (p s : Text) → starts_with p s ≡ true → (r : Text) × (s ≡ p ++ r)
unfolding starts_with
starts_with_sound [] s h = (s, refl)
starts_with_sound (c ∷ p) [] h = absurd (ground arith)
starts_with_sound (c ∷ p) (d ∷ s) h =
    let (r, e) = starts_with_sound p s (ground arith) in (r, ground (arith, e))

pub ends_with-append : (q p : Text) → ends_with p (q ++ p) ≡ true
unfolding ends_with
ends_with-append [] [] = text_eq_refl []
ends_with-append [] (c ∷ p) = rw (text_eq_refl (c ∷ p)) refl
ends_with-append (d ∷ q) p = ground (arith, ends_with-append q p)

pub ends_with_sound : (p s : Text) → ends_with p s ≡ true → (q : Text) × (s ≡ q ++ p)
unfolding ends_with
ends_with_sound p [] h = ([], ground (arith, text_eq_iff p []))
ends_with_sound p (d ∷ s) h = elim (Bool-cases (text_eq p (d ∷ s))) [
  | inl t ↦ ([], ground (arith, text_eq_iff p (d ∷ s)))
  | inr f ↦ let (q, e) = ends_with_sound p s (ground arith) in (d ∷ q, ap (◌∷◌ d) e)
]

text_eq_longer : (p q : Text) (d : ℕ) → text_eq p (d ∷ (q ++ p)) ≡ false
text_eq_longer p q d = elim (Bool-cases (text_eq p (d ∷ (q ++ p)))) [
  | inl t ↦
      let longer : length p ≡ length (d ∷ (q ++ p)) =
        ap length ((text_eq_iff p (d ∷ (q ++ p))).0 t) in
      absurd (omega (arith, longer, length-append q p))
  | inr f ↦ f
]

pub strip_suffix?-append : (q p : Text) → strip_suffix? p (q ++ p) ≡ some q
unfolding strip_suffix?
strip_suffix?-append [] [] = rw (text_eq_refl []) refl
strip_suffix?-append [] (c ∷ p) = rw (text_eq_refl (c ∷ p)) refl
strip_suffix?-append (d ∷ q) p = simp (text_eq_longer p q d, strip_suffix?-append q p)

pub strip_suffix?_sound : (p s q : Text) → strip_suffix? p s ≡ some q → s ≡ q ++ p
unfolding strip_suffix?
strip_suffix?_sound p [] q h = ground (arith, text_eq_iff p [])
strip_suffix?_sound p (d ∷ s) q h = elim (Bool-cases (text_eq p (d ∷ s))) [
  | inl t ↦ ground (arith, text_eq_iff p (d ∷ s))
  | inr f ↦ elim (Option-cases (strip_suffix? p s)) [
    | inl e ↦ absurd (ground arith)
    | inr (q', e) ↦ let step = strip_suffix?_sound p s q' e in ground (arith, step)
  ]
]
