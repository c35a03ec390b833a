-- ===== src/Cli/Sanitize/Clean.antt =====
-- syntropy-cli/src/ui.rs: what `sanitize_terminal_output` leaves, and what it takes away.
use syntropy.Prelude.{
  append-nil, ℕ, ◌≡◌, ◌↔◌, refl, sym, ap, ◌∙◌, true, false, [], ◌∷◌, ◌++◌, arith,
}
use mathlib.Core.Path.{subst}
use syntropy.Cli.Sanitize.{
  Chars, is_shown, ends_control, Within, text, control, command, sanitize_from,
  sanitize_terminal_output,
}

-- No character is a control character, other than the end of a line and the tabulator.
abbrev pub IsClean : Chars → Type 0
IsClean [] = Unit
IsClean (c ∷ s) = (is_shown c ≡ true) × IsClean s

sanitize_from-IsClean : (at : Within) (s : Chars) → IsClean (sanitize_from at s)
unfolding sanitize_from
sanitize_from-IsClean text [] = tt
sanitize_from-IsClean control [] = tt
sanitize_from-IsClean command [] = tt
sanitize_from-IsClean control (c ∷ s) =
    ground (arith, sanitize_from-IsClean text s, sanitize_from-IsClean control s)
sanitize_from-IsClean command (c ∷ s) =
    ground (arith, sanitize_from-IsClean text s, sanitize_from-IsClean command s)
sanitize_from-IsClean text (c ∷ []) = ground arith
sanitize_from-IsClean text (c ∷ d ∷ s) = ground (
  arith,
  sanitize_from-IsClean text s,
  sanitize_from-IsClean text (d ∷ s),
  sanitize_from-IsClean control s,
  sanitize_from-IsClean command s,
)

-- Clean text is passed on, whatever stands behind it.
sanitize_from-append :
    (a b : Chars) → IsClean a → sanitize_from text (a ++ b) ≡ a ++ sanitize_from text b
unfolding sanitize_from
sanitize_from-append [] b h = refl
sanitize_from-append (c ∷ []) [] h = ground arith
sanitize_from-append (c ∷ []) (d ∷ b) h = ground arith
sanitize_from-append (c ∷ d ∷ a) b h = ground (arith, sanitize_from-append (d ∷ a) b h.1)

-- The parameters of a control sequence: none of them ends it.
abbrev pub IsOpen : Chars → Type 0
IsOpen [] = Unit
IsOpen (c ∷ s) = (ends_control c ≡ false) × IsOpen s

control-append :
    (params : Chars) (final : ℕ) (b : Chars)
    → IsOpen params
    → ends_control final ≡ true
    → sanitize_from control (params ++ final ∷ b) ≡ sanitize_from text b
unfolding sanitize_from
control-append [] final b open_params h = ground (arith, h)
control-append (c ∷ params) final b open_params h =
    ground (arith, open_params.0, control-append params final b open_params.1 h)

-- What is left holds no control character but ends of lines and tabulators, and exactly the texts
-- without other control characters come out as they went in.
pub sanitize_terminal_output-IsClean :
    (s : Chars)
    → IsClean (sanitize_terminal_output s) × ((sanitize_terminal_output s ≡ s) ↔ IsClean s)
unfolding sanitize_terminal_output
sanitize_terminal_output-IsClean s = (
  sanitize_from-IsClean text s,
  (
    (λ e. subst IsClean e (sanitize_from-IsClean text s)),
    (λ h.
        ap (sanitize_from text) (sym (append-nil s)) ∙ sanitize_from-append s [] h ∙ append-nil s),
  ),
)

-- A control sequence behind clean text is taken out, and the rest is read as if it stood alone.
pub sanitize_terminal_output-control :
    (a params b : Chars) (final : ℕ)
    → IsClean a
    → IsOpen params
    → ends_control final ≡ true
    → sanitize_terminal_output (a ++ 27 ∷ b'[' ∷ (params ++ final ∷ b))
      ≡ a ++ sanitize_terminal_output b
unfolding sanitize_terminal_output
sanitize_terminal_output-control a params b final h open_params ends =
    sanitize_from-append a (27 ∷ b'[' ∷ (params ++ final ∷ b)) h
    ∙ ap (λ t. a ++ t) (unfold sanitize_from in control-append params final b open_params ends)
