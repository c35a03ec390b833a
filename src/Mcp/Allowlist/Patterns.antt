-- ===== src/Mcp/Allowlist/Patterns.antt =====
-- proxy.rs: which names an allowlist admits.
use syntropy.Prelude.{
  Option-cases, ◌≡◌, ◌↔◌, ◌⊎◌, inl, inr, refl, true, List, [], ◌∷◌, ◌++◌, Text, lit, text_eq,
  text_eq_iff, Bool-cases, arith,
}
use syntropy.Prelude.{
  strip_prefix?, strip_suffix?, strip_prefix?-eq-some, starts_with-append, starts_with_sound,
  ends_with-append, ends_with_sound, strip_suffix?-append, strip_suffix?_sound,
}
use syntropy.Mcp.Allowlist.{is_allowed, prefix_fits, suffix_fits}

-- A pattern stands for a name when it is that name, a beginning of it before a star, or an end of
-- it behind a star.
abbrev pub Fits : Text → Text → Type 0
Fits pattern name =
    (pattern ≡ name)
    ⊎ ((p : Text) × (r : Text) × (pattern ≡ p ++ lit "*") × (name ≡ p ++ r))
    ⊎ ((p : Text) × (r : Text) × (pattern ≡ lit "*" ++ p) × (name ≡ r ++ p))

-- Some pattern of the list stands for the name.
abbrev pub SomeFits : List Text → Text → Type 0
SomeFits [] name = ⊥
SomeFits (pattern ∷ patterns) name = Fits pattern name ⊎ SomeFits patterns name

prefix_fits_sound :
    (pattern name : Text)
    → prefix_fits pattern name ≡ true
    → (p : Text) × (r : Text) × (pattern ≡ p ++ lit "*") × (name ≡ p ++ r)
prefix_fits_sound pattern name h = elim (Option-cases (strip_suffix? (lit "*") pattern)) [
  | inl e ↦ absurd (ground arith)
  | inr (p, e) ↦
      let (r, n) = starts_with_sound p name (ground arith) in
      (p, r, strip_suffix?_sound (lit "*") pattern p e, n)
]

suffix_fits_sound :
    (pattern name : Text)
    → suffix_fits pattern name ≡ true
    → (p : Text) × (r : Text) × (pattern ≡ lit "*" ++ p) × (name ≡ r ++ p)
suffix_fits_sound pattern name h = elim (Option-cases (strip_prefix? (lit "*") pattern)) [
  | inl e ↦ absurd (ground arith)
  | inr (p, e) ↦
      let (r, n) = ends_with_sound p name (ground arith) in
      (p, r, (strip_prefix?-eq-some (lit "*") pattern p).0 e, n)
]

prefix_fits_complete : (p r : Text) → prefix_fits (p ++ lit "*") (p ++ r) ≡ true
prefix_fits_complete p r = ground (arith, strip_suffix?-append p (lit "*"), starts_with-append p r)

suffix_fits_complete : (p r : Text) → suffix_fits (lit "*" ++ p) (r ++ p) ≡ true
suffix_fits_complete p r =
    let e = (strip_prefix?-eq-some (lit "*") (lit "*" ++ p) p).1 refl in
    ground (arith, e, ends_with-append r p)

-- An allowlist admits a name exactly when one of its patterns stands for it.
pub is_allowed_iff :
    (patterns : List Text) (name : Text)
    → (is_allowed patterns name ≡ true) ↔ SomeFits patterns name
unfolding is_allowed
is_allowed_iff [] name = (λ h. absurd (ground arith), λ h. absurd h)
is_allowed_iff (pattern ∷ patterns) name = (
  λ h. elim (Bool-cases (text_eq pattern (lit "*"))) [
    | inl t ↦ inl (inr (inl ([], name, (text_eq_iff pattern (lit "*")).0 t, refl)))
    | inr f ↦ elim (Bool-cases (text_eq pattern name)) [
      | inl t ↦ inl (inl ((text_eq_iff pattern name).0 t))
      | inr f' ↦ elim (Bool-cases (prefix_fits pattern name)) [
        | inl t ↦ inl (inr (inl (prefix_fits_sound pattern name t)))
        | inr g ↦ elim (Bool-cases (suffix_fits pattern name)) [
          | inl t ↦ inl (inr (inr (suffix_fits_sound pattern name t)))
          | inr g' ↦ inr ((is_allowed_iff patterns name).0 (ground (arith, f, f', g, g')))
        ]
      ]
    ]
  ],
  λ h. elim h [
    | inl (inl e) ↦ ground (arith, text_eq_iff pattern name)
    | inl (inr (inl (p, r, e, n))) ↦
        let fits : prefix_fits pattern name ≡ true = rw e (rw n (prefix_fits_complete p r)) in
        ground (arith, fits)
    | inl (inr (inr (p, r, e, n))) ↦
        let fits : suffix_fits pattern name ≡ true = rw e (rw n (suffix_fits_complete p r)) in
        ground (arith, fits)
    | inr rest ↦ let later = (is_allowed_iff patterns name).1 rest in ground (arith, later)
  ],
)
