-- ===== src/Cli/Http/Body.antt =====
-- syntropy-cli/src/ui.rs: where a reader that reads as the server does finds the body of a response.
use syntropy.Prelude.{
  ℕ, ◌≡◌, refl, ap, ◌∙◌, Bool, true, false, not, ◌&&◌, none, some, List, [], ◌∷◌, ◌++◌, join,
  append-nil, Text, lit, find?, strip_prefix?, show, show-IsDigits, IsDigits, length, append_assoc,
  ◌==◌, arith,
}
use syntropy.Cli.Http.{head_of, status_text, send_http_response, body_of}

-- No byte is a carriage return.
unfoldable pub is_line : Text → Bool
is_line [] = true
is_line (c ∷ s) = not (c == 13) && is_line s

is_line-append : (a b : Text) → is_line (a ++ b) ≡ (is_line a && is_line b)
unfolding is_line
is_line-append [] b = refl
is_line-append (c ∷ a) b = ground (arith, is_line-append a b)

is_line-digits : (s : Text) → IsDigits s → is_line s ≡ true
unfolding is_line
is_line-digits [] h = refl
is_line-digits (c ∷ s) h = ground (arith, is_line-digits s h.2, h.0, h.1)

-- A place where the text that is looked for does not begin is passed over.
find?-skip :
    (p s b r : Text) (d : ℕ)
    → strip_prefix? p (d ∷ s) ≡ none
    → find? p s ≡ some (b, r)
    → find? p (d ∷ s) ≡ some (d ∷ b, r)
unfolding find?
find?-skip p s b r d h f = ground (arith, h, f)

-- A line is passed over in the search for an empty line.
find?-line :
    (l s b r : Text)
    → is_line l ≡ true
    → find? (lit "\r\n\r\n") s ≡ some (b, r)
    → find? (lit "\r\n\r\n") (l ++ s) ≡ some (l ++ b, r)
unfolding is_line strip_prefix?
find?-line [] s b r h f = f
find?-line (c ∷ l) s b r h f =
    find?-skip (lit "\r\n\r\n") (l ++ s) (l ++ b) r c (ground arith)
      (find?-line l s b r (ground arith) f)

-- So is the end of a line with a line behind it that is not empty.
find?-end :
    (c : ℕ) (s b r : Text)
    → (c == 13) ≡ false
    → find? (lit "\r\n\r\n") (c ∷ s) ≡ some (b, r)
    → find? (lit "\r\n\r\n") (13 ∷ 10 ∷ c ∷ s) ≡ some (13 ∷ 10 ∷ b, r)
unfolding strip_prefix?
find?-end c s b r h f =
    find?-skip (lit "\r\n\r\n") (10 ∷ c ∷ s) (10 ∷ b) r 13 (ground arith)
      (find?-skip (lit "\r\n\r\n") (c ∷ s) b r 10 refl f)

-- Lines that are not empty and hold no carriage return.
abbrev pub AreLines : List Text → Type 0
AreLines [] = Unit
AreLines ([] ∷ ls) = ⊥
AreLines ((c ∷ l) ∷ ls) = (is_line (c ∷ l) ≡ true) × AreLines ls

find?-empty_line : (b : Text) → find? (lit "\r\n\r\n") (lit "\r\n\r\n" ++ b) ≡ some ([], b)
unfolding find? strip_prefix?
find?-empty_line b = refl

is_line-head : (d : ℕ) (m : Text) → is_line (d ∷ m) ≡ true → (d == 13) ≡ false
unfolding is_line
is_line-head d m h = ground arith

-- The empty line behind the lines of a head is found behind the last of them.
find?-head_of :
    (l : Text) (ls : List Text) (body : Text)
    → AreLines (l ∷ ls)
    → find? (lit "\r\n\r\n") (head_of (l ∷ ls) ++ body) ≡ some (join (lit "\r\n") (l ∷ ls), body)
unfolding head_of join
find?-head_of [] ls body h = absurd h
find?-head_of (c ∷ l) [] body h = rw (append_assoc (c ∷ l) (lit "\r\n\r\n") body) (
    find?-line (c ∷ l) (lit "\r\n\r\n" ++ body) [] body h.0 (find?-empty_line body)
    ∙ ap (λ x. some (x, body)) (append-nil (c ∷ l)))
find?-head_of (c ∷ l) ([] ∷ ls) body h = absurd h.1
find?-head_of (c ∷ l) ((d ∷ m) ∷ ls) body h =
    rw (append_assoc (c ∷ l) (13 ∷ 10 ∷ head_of ((d ∷ m) ∷ ls)) body) (
      find?-line (c ∷ l) (13 ∷ 10 ∷ (head_of ((d ∷ m) ∷ ls) ++ body)) _ body h.0 (
        find?-end d _ (join (lit "\r\n") ((d ∷ m) ∷ ls)) body (is_line-head d m h.1.0)
          (find?-head_of (d ∷ m) ls body h.1)))

is_line-status_text : (status : ℕ) → is_line (status_text status) ≡ true
unfolding status_text is_line
is_line-status_text status = ground arith

status_line :
    (status : ℕ)
    → is_line (lit "HTTP/1.1 " ++ (show status ++ (lit " " ++ status_text status))) ≡ true
unfolding is_line
status_line status =
    rw
      (
        is_line-append (show status) (lit " " ++ status_text status),
        is_line-digits (show status) (show-IsDigits status),
      )
      (is_line-status_text status)

-- A response with a content type of one line is read back: what stands behind the first empty line
-- is the body, and before it stand the status, the type and the length of the body.
pub body_of-send_http_response :
    (status : ℕ) (content_type body : Text)
    → is_line content_type ≡ true
    → (body_of (send_http_response status content_type body) ≡ body)
      × (find? (lit "\r\n\r\n") (send_http_response status content_type body)
          ≡ some (
            join (lit "\r\n") (
                (lit "HTTP/1.1 " ++ (show status ++ (lit " " ++ status_text status)))
                ∷ (lit "Content-Type: " ++ content_type)
                ∷ (lit "Content-Length: " ++ show (length body))
                ∷ lit "Access-Control-Allow-Origin: *"
                ∷ lit "Access-Control-Allow-Headers: Content-Type"
                ∷ lit "Connection: close"
                ∷ []),
            body,
          ))
unfolding body_of send_http_response is_line
body_of-send_http_response status content_type body h =
    let split =
      find?-head_of (lit "HTTP/1.1 " ++ (show status ++ (lit " " ++ status_text status)))
        ((lit "Content-Type: " ++ content_type)
          ∷ (lit "Content-Length: " ++ show (length body))
          ∷ lit "Access-Control-Allow-Origin: *"
          ∷ lit "Access-Control-Allow-Headers: Content-Type"
          ∷ lit "Connection: close"
          ∷ [])
        body
        (
          status_line status,
          (
            h,
            (
              is_line-digits (show (length body)) (show-IsDigits (length body)),
              (refl, (refl, (refl, tt))),
            ),
          ),
        ) in
    (ground (arith, split), split)
