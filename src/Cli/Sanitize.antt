-- ===== src/Cli/Sanitize.antt =====
-- syntropy-cli/src/ui.rs: `sanitize_terminal_output`, on the code points of a text.
pub mod Clean
use syntropy.Prelude.{
  ℕ, Bool, true, false, not, ◌&&◌, ◌||◌, List, [], ◌∷◌, ltb, leb, ◌==◌, if◌then◌else◌,
}

-- A `String`, by its `chars()`.
abbrev pub Chars : Type 0
Chars = List ℕ

-- `c.is_control()`: Unicode's category Cc.
abbrev pub is_control : ℕ → Bool
is_control c = ltb c 32 || (leb 127 c && leb c 159)

-- `c.is_ascii_alphabetic()`
abbrev pub is_alphabetic : ℕ → Bool
is_alphabetic c = (leb b'A' c && leb c b'Z') || (leb b'a' c && leb c b'z')

-- `!c.is_control() || c == '\n' || c == '\t'`
abbrev pub is_shown : ℕ → Bool
is_shown c = not (is_control c) || c == 10 || c == 9

-- The characters that end the two inner loops.
abbrev pub ends_control : ℕ → Bool
ends_control c = is_alphabetic c || c == b'~'

abbrev pub ends_command : ℕ → Bool
ends_command c = c == 7 || c == 10

-- The loop that the next character is read in: the outer one, or the inner one behind `ESC [` or
-- `ESC ]`.
pub data Within : Type 0 where
  text control command : Within

unfoldable pub sanitize_from : Within → Chars → Chars
sanitize_from at [] = []
sanitize_from control (c ∷ s) =
    let ended = sanitize_from text s in
    let more = sanitize_from control s in if ends_control c then ended else more
sanitize_from command (c ∷ s) =
    let ended = sanitize_from text s in
    let more = sanitize_from command s in if ends_command c then ended else more
sanitize_from text (c ∷ []) =
    if c == 27 then [] else if c == 13 then [] else if is_shown c then c ∷ [] else []
sanitize_from text (c ∷ d ∷ s) =
    let in_control = sanitize_from control s in
    let in_command = sanitize_from command s in
    let behind = sanitize_from text s in
    let after = sanitize_from text (d ∷ s) in
    if c == 27
    then (if d == b'[' then in_control else if d == b']' then in_command else behind)
    else if c == 13
    then (if d == 10 then 10 ∷ behind else after)
    else if is_shown c
    then c ∷ after
    else after

unfoldable pub sanitize_terminal_output : Chars → Chars
unfolding sanitize_from
sanitize_terminal_output input = sanitize_from text input
