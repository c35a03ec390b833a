-- ===== src/Exec/Diff/Parser/Words.antt =====
-- Texts of plain words with single blanks between them, as the header of a hunk is printed.
use syntropy.Prelude.{
  ℕ, zero, suc, ◌≡◌, ◌⊎◌, inl, inr, ◌≤◌, ◌<◌, ◌+◌, refl, sym, ap, ◌∙◌, false, none, some, [], ◌∷◌,
  ◌++◌, Text, lit, length, arith, append-nil, append_assoc, length-append, after_white?, words_from,
  push_word, trim, trim_start_from, trim_end, is_nil, split_whitespace, find?, strip_prefix?,
}

-- Printable ASCII other than `@`, of which the words of a header consist.
abbrev pub IsPlain : Text → Type 0
IsPlain [] = Unit
IsPlain (c ∷ s) = (33 ≤ c) × (c < 64) × IsPlain s

pub IsPlain-append : (s t : Text) → IsPlain s → IsPlain t → IsPlain (s ++ t)
IsPlain-append [] t a b = b
IsPlain-append (c ∷ s) t (lo, hi, a) b = (lo, hi, IsPlain-append s t a b)

-- No character of a plain text is white.
after_white?-plain : (c : ℕ) (s : Text) → 33 ≤ c → c < 64 → after_white? (c ∷ s) ≡ none
unfolding after_white?
after_white?-plain c [] lo hi = ground arith
after_white?-plain c (b ∷ []) lo hi = ground arith
after_white?-plain c (b ∷ d ∷ s) lo hi = ground arith

after_white?-blank : (s : Text) → after_white? (32 ∷ s) ≡ some s
unfolding after_white?
after_white?-blank [] = refl
after_white?-blank (b ∷ []) = refl
after_white?-blank (b ∷ c ∷ s) = refl

-- Plain characters and blanks.
abbrev pub IsSpaced : Text → Type 0
IsSpaced [] = Unit
IsSpaced (c ∷ s) = ((c ≡ 32) ⊎ ((33 ≤ c) × (c < 64))) × IsSpaced s

pub plain-IsSpaced : (s : Text) → IsPlain s → IsSpaced s
plain-IsSpaced [] h = tt
plain-IsSpaced (c ∷ s) (lo, hi, h) = (inr (lo, hi), plain-IsSpaced s h)

pub IsSpaced-append : (s t : Text) → IsSpaced s → IsSpaced t → IsSpaced (s ++ t)
IsSpaced-append [] t a b = b
IsSpaced-append (c ∷ s) t (x, a) b = (x, IsSpaced-append s t a b)

trim_start-blank : (n : ℕ) (s : Text) → trim_start_from (suc n) (32 ∷ s) ≡ trim_start_from n s
unfolding trim_start_from after_white?
trim_start-blank n [] = refl
trim_start-blank n (b ∷ []) = refl
trim_start-blank n (b ∷ c ∷ s) = refl

-- A text with a plain character is not all white.
visible :
    (n : ℕ) (s : Text) (c : ℕ) (t : Text)
    → IsSpaced s
    → 33 ≤ c
    → c < 64
    → is_nil (trim_start_from n (s ++ c ∷ t)) ≡ false
unfolding trim_start_from
visible zero [] c t h lo hi = refl
visible zero (d ∷ s) c t h lo hi = refl
visible (suc n) [] c t h lo hi = rw (after_white?-plain c t lo hi) refl
visible (suc n) (d ∷ s) c t (inl e, h) lo hi =
    ap (λ x. is_nil (trim_start_from (suc n) (x ∷ (s ++ c ∷ t)))) e
    ∙ ap is_nil (trim_start-blank n (s ++ c ∷ t))
    ∙ visible n s c t h lo hi
visible (suc n) (d ∷ s) c t (inr (l, u), h) lo hi = rw (after_white?-plain d (s ++ c ∷ t) l u) refl

trim_end-visible :
    (s : Text) (c : ℕ) (t : Text)
    → IsSpaced s
    → 33 ≤ c
    → c < 64
    → trim_end (s ++ c ∷ t) ≡ s ++ c ∷ trim_end t
unfolding trim_end
trim_end-visible [] c t h lo hi = rw (visible (length (c ∷ t)) [] c t tt lo hi) refl
trim_end-visible (d ∷ s) c t (x, h) lo hi =
    rw (visible (length (d ∷ (s ++ c ∷ t))) (d ∷ s) c t (x, h) lo hi)
      (ap (◌∷◌ d) (trim_end-visible s c t h lo hi))

-- The last character of a word.
last_of :
    (c : ℕ) (s : Text)
    → IsPlain (c ∷ s)
    → (i : Text) × (d : ℕ) × (c ∷ s ≡ i ++ d ∷ []) × IsPlain i × (33 ≤ d) × (d < 64)
last_of c [] (lo, hi, h) = ([], c, refl, tt, lo, hi)
last_of c (b ∷ s) (lo, hi, h) =
    let (i, d, e, p, l, u) = last_of b s h in (c ∷ i, d, ap (◌∷◌ c) e, (lo, hi, p), l, u)

trim_start_blank :
    (n a : ℕ) (s : Text) → 1 ≤ n → 33 ≤ a → a < 64 → trim_start_from (suc n) (32 ∷ a ∷ s) ≡ a ∷ s
unfolding trim_start_from
trim_start_blank zero a s h lo hi = absurd (omega arith)
trim_start_blank (suc n) a s h lo hi =
    trim_start-blank (suc n) (a ∷ s) ∙ rw (trim_start_from, after_white?-plain a s lo hi) refl

-- The blanks around two words are left out.
pub trim_printed :
    (a b : ℕ) (v w : Text)
    → IsPlain (a ∷ v)
    → IsPlain (b ∷ w)
    → trim (32 ∷ ((a ∷ v) ++ 32 ∷ ((b ∷ w) ++ 32 ∷ []))) ≡ (a ∷ v) ++ 32 ∷ (b ∷ w)
unfolding trim trim_end trim_start_from after_white?
trim_printed a b v w (lo, hi, pv) pw =
    let (i, d, e, p, l, u) = last_of b w pw in
    let front = (a ∷ v) ++ 32 ∷ i in
    let middle = (a ∷ v) ++ 32 ∷ ((b ∷ w) ++ 32 ∷ []) in
    let apart : middle ≡ front ++ d ∷ 32 ∷ [] =
      ap (λ t. (a ∷ v) ++ 32 ∷ (t ++ 32 ∷ [])) e
      ∙ ap (λ t. (a ∷ v) ++ 32 ∷ t) (append_assoc i (d ∷ []) (32 ∷ []))
      ∙ sym (append_assoc (a ∷ v) (32 ∷ i) (d ∷ 32 ∷ [])) in
    let together : front ++ d ∷ [] ≡ (a ∷ v) ++ 32 ∷ (b ∷ w) =
      append_assoc (a ∷ v) (32 ∷ i) (d ∷ []) ∙ ap (λ t. (a ∷ v) ++ 32 ∷ t) (sym e) in
    let spaced =
      IsSpaced-append (a ∷ v) (32 ∷ i) (plain-IsSpaced (a ∷ v) (lo, hi, pv))
        (inl refl, plain-IsSpaced i p) in
    ap trim_end
      (trim_start_blank (length middle) a (v ++ 32 ∷ ((b ∷ w) ++ 32 ∷ [])) (omega arith) lo hi)
    ∙ ap trim_end apart
    ∙ trim_end-visible front d (32 ∷ []) spaced l u
    ∙ together

words_from-plain :
    (s t : Text) (n : ℕ)
    → IsPlain s
    → words_from (length s + n) (s ++ t) ≡ (s ++ (words_from n t).0, (words_from n t).1)
unfolding words_from
words_from-plain [] t n h = ap (λ k. words_from k t) (omega arith)
words_from-plain (c ∷ s) t n (lo, hi, h) =
    let e : length (c ∷ s) + n ≡ suc (length s + n) = omega arith in
    rw (e, after_white?-plain c (s ++ t) lo hi, words_from-plain s t n h) refl

words_from-nil : (n : ℕ) → words_from n [] ≡ ([], [])
unfolding words_from after_white?
words_from-nil zero = refl
words_from-nil (suc n) = refl

words_from-word : (s : Text) → IsPlain s → words_from (length s) s ≡ (s, [])
words_from-word s h =
    ap (λ k. words_from k s) (omega arith)
    ∙ ap (words_from (length s + 0)) (sym (append-nil s))
    ∙ words_from-plain s [] 0 h
    ∙ rw (words_from-nil 0, append-nil s) refl

-- The words behind a blank.
words_from-blank :
    (n : ℕ) (s : Text)
    → words_from (suc n) (32 ∷ s) ≡ ([], push_word (words_from n s).0 (words_from n s).1)
unfolding words_from after_white?
words_from-blank n [] = refl
words_from-blank n (b ∷ []) = refl
words_from-blank n (b ∷ c ∷ s) = refl

-- Two words with a blank between them.
pub split_whitespace_printed :
    (a b : ℕ) (v w : Text)
    → IsPlain (a ∷ v)
    → IsPlain (b ∷ w)
    → split_whitespace ((a ∷ v) ++ 32 ∷ (b ∷ w)) ≡ (a ∷ v) ∷ (b ∷ w) ∷ []
unfolding split_whitespace
split_whitespace_printed a b v w pv pw =
    let n = length (b ∷ w) in
    let total : length ((a ∷ v) ++ 32 ∷ (b ∷ w)) ≡ length (a ∷ v) + suc n =
      length-append (a ∷ v) (32 ∷ (b ∷ w)) in
    ap
      (λ k.
        push_word (words_from k ((a ∷ v) ++ 32 ∷ (b ∷ w))).0
          (words_from k ((a ∷ v) ++ 32 ∷ (b ∷ w))).1)
      total
    ∙ ap (λ r. push_word r.0 r.1) (words_from-plain (a ∷ v) (32 ∷ (b ∷ w)) (suc n) pv)
    ∙ ap (λ r. push_word ((a ∷ v) ++ r.0) r.1) (words_from-blank n (b ∷ w))
    ∙ ap (λ r. push_word ((a ∷ v) ++ []) (push_word r.0 r.1)) (words_from-word (b ∷ w) pw)
    ∙ ap (λ u. (a ∷ u) ∷ (b ∷ w) ∷ []) (append-nil v)

-- The first mark `@@` behind a text without the character.
pub find?-before : (s t : Text) → IsSpaced s → find? (lit "@@") (s ++ (lit "@@" ++ t)) ≡ some (s, t)
unfolding find? strip_prefix?
find?-before [] t h = refl
find?-before (c ∷ s) t (inl e, h) = ground (arith, find?-before s t h)
find?-before (c ∷ s) t (inr (lo, hi), h) = ground (arith, find?-before s t h)
