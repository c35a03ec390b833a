-- ===== src/Exec/RingBuffer/Latest.antt =====
-- pty_mux.rs: what a ring buffer holds of what was written.
use syntropy.Prelude.{
  ℕ, zero, suc, ◌≡◌, inl, inr, ◌≤◌, ◌<◌, ◌+◌, ◌-◌, max, refl, sym, ap, ◌∙◌, true, List, [], ◌∷◌,
  ◌++◌, Text, Bool-cases, if◌then◌else◌, length, drop, ltb, leb, arith,
}
use syntropy.Prelude.{
  drop-append_ge, drop-append_le, drop-drop, length-drop, length-append, drop-nil, append-nil,
  append_assoc,
}
use syntropy.Exec.RingBuffer.{RingBuffer, new_buffer, write}

-- The last elements of a list, so many at most.
abbrev pub latest : ℕ → Text → Text
latest n s = drop (length s - n) s

-- All the chunks, one after the other.
unfoldable pub write_all : List Text → RingBuffer → RingBuffer
write_all [] r = r
write_all (d ∷ ds) r = write_all ds (write d r)

abbrev pub concat : List Text → Text
concat [] = []
concat (d ∷ ds) = d ++ concat ds

write-capacity : (d : Text) (r : RingBuffer) → (write d r).capacity ≡ r.capacity
unfolding write
write-capacity d r = ground arith

-- A chunk that fits: the oldest bytes make room.
latest-append_short :
    (n : ℕ) (s d : Text)
    → length d < n
    → drop ((length (latest n s) + length d) - n) (latest n s) ++ d ≡ latest n (s ++ d)
latest-append_short n s d h =
    let total = length-append s d in
    let held = length-drop (length s - n) s in
    let at : (length s - n) + ((length (latest n s) + length d) - n) ≡ length (s ++ d) - n =
      omega (arith, total, held) in
    ap (λ t. t ++ d)
      (drop-drop ((length (latest n s) + length d) - n) (length s - n) s ∙ ap (λ k. drop k s) at)
    ∙ sym (drop-append_le (length (s ++ d) - n) s d (omega (arith, total)))

-- A chunk that fills the buffer alone.
latest-append_long : (n : ℕ) (s d : Text) → n ≤ length d → drop (length d - n) d ≡ latest n (s ++ d)
latest-append_long n s d h =
    let at : length s + (length d - n) ≡ length (s ++ d) - n = omega (arith, length-append s d) in
    sym (drop-append_ge (length d - n) s d) ∙ ap (λ k. drop k (s ++ d)) at

drop_if : (n : ℕ) (b : Text) → (if ltb 0 n then drop n b else b) ≡ drop n b
drop_if zero b = refl
drop_if (suc n) b = let positive : ltb 0 (suc n) ≡ true = ground arith in rw positive refl

write-buffer :
    (s d : Text) (r : RingBuffer)
    → r.buffer ≡ latest r.capacity s
    → (write d r).buffer ≡ latest r.capacity (s ++ d)
unfolding write
write-buffer s d r held = elim (Bool-cases (leb r.capacity (length d))) [
  | inl t ↦ rw t (latest-append_long r.capacity s d (ground arith))
  | inr f ↦ rw f (
      ap (λ b. b ++ d) (drop_if (length r.buffer + length d - r.capacity) r.buffer)
      ∙ rw held (latest-append_short r.capacity s d (ground arith)))
]

-- However the output is cut into chunks, a buffer holds the last bytes of all that was written, as
-- many as its capacity.
pub write_all-latest :
    (capacity : ℕ) (chunks : List Text)
    → (write_all chunks (new_buffer capacity)).buffer ≡ latest (max capacity 1) (concat chunks)
unfolding new_buffer write_all
write_all-latest capacity chunks =
    go chunks [] (new_buffer capacity) refl (sym (drop-nil (0 - max capacity 1)))
  where
    go :
        (ds : List Text) (s : Text) (r : RingBuffer)
        → r.capacity ≡ max capacity 1
        → r.buffer ≡ latest (max capacity 1) s
        → (write_all ds r).buffer ≡ latest (max capacity 1) (s ++ concat ds)
    go [] s r c held = held ∙ ap (latest (max capacity 1)) (sym (append-nil s))
    go (d ∷ ds) s r c held =
        go ds (s ++ d) (write d r) (write-capacity d r ∙ c)
          (write-buffer s d r (held ∙ ap (λ n. latest n s) (sym c)) ∙ ap (λ n. latest n (s ++ d)) c)
        ∙ ap (latest (max capacity 1)) (append_assoc s d (concat ds))
