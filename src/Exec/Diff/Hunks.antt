-- ===== src/Exec/Diff/Hunks.antt =====
-- diff.rs: what the lines of a hunk do to the lines of a file.
use syntropy.Prelude.{
  List-cases, inl, inr, append-nil, append_assoc, text_eq_refl, text_eq_iff, Result, ok, sym, ◌∙◌,
  arith, refl, ◌+◌, Text, ℕ, suc, ◌≡◌, inl, inr, ◌≤◌, List, [], ◌∷◌, ◌++◌, length,
}
use syntropy.Exec.Diff.{
  DiffError, DiffLine, context, deletion, addition, Progress, emit, skip, apply_line, apply_lines,
}

-- The lines that a hunk expects, and those that it leaves.
unfoldable pub old_lines : List DiffLine → List Text
old_lines [] = []
old_lines (context t ∷ ls) = t ∷ old_lines ls
old_lines (deletion t ∷ ls) = t ∷ old_lines ls
old_lines (addition t ∷ ls) = old_lines ls

unfoldable pub new_lines : List DiffLine → List Text
new_lines [] = []
new_lines (context t ∷ ls) = t ∷ new_lines ls
new_lines (deletion t ∷ ls) = new_lines ls
new_lines (addition t ∷ ls) = t ∷ new_lines ls

unfoldable pub additions : List DiffLine → ℕ
additions [] = 0
additions (context t ∷ ls) = additions ls
additions (deletion t ∷ ls) = additions ls
additions (addition t ∷ ls) = suc (additions ls)

unfoldable pub deletions : List DiffLine → ℕ
deletions [] = 0
deletions (context t ∷ ls) = deletions ls
deletions (deletion t ∷ ls) = suc (deletions ls)
deletions (addition t ∷ ls) = deletions ls

-- Two ends of a run that agree in every field.
same :
    {l l' : List Text} {i i' : ℕ} {r r' : List Text} {a a' d d' : ℕ}
    → l ≡ l'
    → i ≡ i'
    → r ≡ r'
    → a ≡ a'
    → d ≡ d'
    → ◌≡◌ {A = Result DiffError Progress}
        (ok
          (record { result_lines = l; orig_idx = i; rest = r; lines_added = a; lines_removed = d }))
        (ok (record {
          result_lines = l';
          orig_idx = i';
          rest = r';
          lines_added = a';
          lines_removed = d';
        }))
same e1 e2 e3 e4 e5 = cc

-- On a file that goes on with the lines that a hunk expects, the hunk applies: it puts its new
-- lines in their place, goes on behind them, and counts what it added and removed.
pub apply_lines_complete :
    (ls : List DiffLine) (p : Progress) (tail : List Text)
    → p.rest ≡ old_lines ls ++ tail
    → apply_lines ls p
      ≡ ok (record {
        result_lines = p.result_lines ++ new_lines ls;
        orig_idx = p.orig_idx + length (old_lines ls);
        rest = tail;
        lines_added = p.lines_added + additions ls;
        lines_removed = p.lines_removed + deletions ls;
      })
unfolding apply_lines apply_line old_lines new_lines additions deletions
apply_lines_complete [] p tail h =
    same (sym (append-nil p.result_lines)) (omega arith) h (omega arith) (omega arith)
apply_lines_complete (context t ∷ ls) p tail h =
    let rest = old_lines ls ++ tail in
    let q : Progress = skip rest (emit t p) in
    rw h (
      rw (text_eq_refl t) (
        apply_lines_complete ls q tail refl
        ∙ same (append_assoc p.result_lines (t ∷ []) (new_lines ls)) (omega arith) refl refl refl))
apply_lines_complete (deletion t ∷ ls) p tail h =
    let rest = old_lines ls ++ tail in
    let q : Progress = skip rest (record p { lines_removed = p.lines_removed + 1 }) in
    rw h (
      rw (text_eq_refl t)
        (apply_lines_complete ls q tail refl ∙ same refl (omega arith) refl refl (omega arith)))
apply_lines_complete (addition t ∷ ls) p tail h =
    let q : Progress = record (emit t p) { lines_added = p.lines_added + 1 } in
    apply_lines_complete ls q tail h
    ∙ same (append_assoc p.result_lines (t ∷ []) (new_lines ls)) refl refl (omega arith) refl

-- A hunk that applies to a file with enough lines left found there the lines that it expects.
pub apply_lines_sound :
    (ls : List DiffLine) (p q : Progress)
    → length (old_lines ls) ≤ length p.rest
    → apply_lines ls p ≡ ok q
    → p.rest ≡ old_lines ls ++ q.rest
unfolding apply_lines apply_line old_lines
apply_lines_sound [] p q enough h = ground arith
apply_lines_sound (context t ∷ ls) p q enough h = elim (List-cases p.rest) [
  | inl e ↦ absurd (ground arith)
  | inr (a, r, e) ↦
      let found : a ≡ t = ground (arith, text_eq_iff a t) in
      let ih =
        apply_lines_sound ls (skip r (emit t p)) q (ground arith)
          (ground (arith, text_eq_iff a t)) in
      e ∙ ground (arith, found, ih)
]
apply_lines_sound (deletion t ∷ ls) p q enough h = elim (List-cases p.rest) [
  | inl e ↦ absurd (ground arith)
  | inr (a, r, e) ↦
      let found : a ≡ t = ground (arith, text_eq_iff a t) in
      let ih =
        apply_lines_sound ls (skip r (record p { lines_removed = p.lines_removed + 1 })) q
          (ground arith) (ground (arith, text_eq_iff a t)) in
      e ∙ ground (arith, found, ih)
]
apply_lines_sound (addition t ∷ ls) p q enough h =
    apply_lines_sound ls (record (emit t p) { lines_added = p.lines_added + 1 }) q enough h

past_context : (t : Text) (p : Progress) → p.rest ≡ [] → apply_line (context t) p ≡ ok (emit t p)
unfolding apply_line
past_context t p h = rw h refl

past_deletion :
    (t : Text) (p : Progress)
    → p.rest ≡ []
    → apply_line (deletion t) p ≡ ok (record p { lines_removed = p.lines_removed + 1 })
unfolding apply_line
past_deletion t p h = rw h refl

-- Behind the end of the file a hunk applies whatever it expects, and counts its deletions.
pub apply_lines_past_end :
    (ls : List DiffLine) (p : Progress)
    → p.rest ≡ []
    → apply_lines ls p
      ≡ ok (record p {
        result_lines = p.result_lines ++ new_lines ls;
        lines_added = p.lines_added + additions ls;
        lines_removed = p.lines_removed + deletions ls;
      })
unfolding apply_lines new_lines additions deletions
apply_lines_past_end [] p h =
    same (sym (append-nil p.result_lines)) refl refl (omega arith) (omega arith)
apply_lines_past_end (context t ∷ ls) p h = rw (past_context t p h) (
    apply_lines_past_end ls (emit t p) h
    ∙ same (append_assoc p.result_lines (t ∷ []) (new_lines ls)) refl refl refl refl)
apply_lines_past_end (deletion t ∷ ls) p h = rw (past_deletion t p h) (
    apply_lines_past_end ls (record p { lines_removed = p.lines_removed + 1 }) h
    ∙ same refl refl refl refl (omega arith))
apply_lines_past_end (addition t ∷ ls) p h =
    apply_lines_past_end ls (record (emit t p) { lines_added = p.lines_added + 1 }) h
    ∙ same (append_assoc p.result_lines (t ∷ []) (new_lines ls)) refl refl (omega arith) refl
