-- ===== src/Exec/Screens/History.antt =====
-- pty_mux.rs: the history of a screen and what its subscribers are sent.
use syntropy.Prelude.{
  if_both, append-nil, ℕ, ◌≡◌, max, refl, sym, ap, ◌∙◌, Bool, true, false, not, ◌&&◌, Option, none,
  some, List, [], ◌∷◌, ◌++◌, map, Text, lookup, ok, if◌then◌else◌, Option-cases, inl, inr, arith,
}
use mathlib.Core.List.{map-append}
use syntropy.Exec.RingBuffer.{RingBuffer, new_buffer, write}
use syntropy.Exec.RingBuffer.Latest.{latest, write_all, concat, write_all-latest}
use syntropy.Exec.Screens.{
  ScreenSession, OutputChunk, Waiter, starting, waiting, waited, kill_child, spawned, SpawnOptions,
}
use syntropy.Exec.Screens.Threads.{
  output_chunk, eof_chunk, on_output, on_send, unsent_of, set_unsent, can_read, finish, waiter_has,
  waiter_takes, reader_ends, Event, takes, child_exits, master_dropped, outputs, sends, output_ends,
  terminate_begins, terminate_ends, step, run,
}
use syntropy.Exec.Screens.Table.{Screens, get_history, session_of}

-- A piece of output, with whether it came from the standard error.
abbrev pub Piece : Type 0
Piece = Bool × Text

abbrev pub is_of : Bool → Bool → Bool
is_of true d = d
is_of false d = not d

-- The pieces of one stream.
abbrev pub stream_of : Bool → List Piece → List Text
stream_of b [] = []
stream_of b ((d, t) ∷ ps) = if is_of b d then t ∷ stream_of b ps else stream_of b ps

-- What was sent of one stream: its chunks other than the last one of the screen.
abbrev pub sent_of : Bool → List OutputChunk → List Text
sent_of b [] = []
sent_of b (c ∷ cs) =
    if not c.is_eof && is_of b c.is_stderr then c.bytes ∷ sent_of b cs else sent_of b cs

abbrev pub listed : Option Text → List Text
listed none = []
listed (some t) = t ∷ []

write_all-snoc :
    (ds : List Text) (d : Text) (r : RingBuffer)
    → write_all (ds ++ d ∷ []) r ≡ write d (write_all ds r)
unfolding write_all
write_all-snoc [] d r = refl
write_all-snoc (c ∷ ds) d r = write_all-snoc ds d (write c r)

stream_of-snoc :
    (b d : Bool) (t : Text) (ps : List Piece)
    → stream_of b (ps ++ (d, t) ∷ []) ≡ stream_of b ps ++ (if is_of b d then t ∷ [] else [])
stream_of-snoc b d t [] = refl
stream_of-snoc b d t ((e, u) ∷ ps) =
    if_both
      (λ l.
        (if is_of b e then u ∷ stream_of b (ps ++ (d, t) ∷ []) else stream_of b (ps ++ (d, t) ∷ []))
        ≡ l ++ (if is_of b d then t ∷ [] else []))
      (is_of b e) (λ y. ground (arith, y, stream_of-snoc b d t ps))
      (λ n. ground (arith, n, stream_of-snoc b d t ps))

sent_of-snoc :
    (b : Bool) (c : OutputChunk) (cs : List OutputChunk)
    → sent_of b (cs ++ c ∷ [])
      ≡ sent_of b cs ++ (if not c.is_eof && is_of b c.is_stderr then c.bytes ∷ [] else [])
sent_of-snoc b c [] = refl
sent_of-snoc b c (d ∷ cs) =
    if_both
      (λ l.
        sent_of b (d ∷ cs ++ c ∷ [])
        ≡ l ++ (if not c.is_eof && is_of b c.is_stderr then c.bytes ∷ [] else []))
      (not d.is_eof && is_of b d.is_stderr) (λ y. ground (arith, y, sent_of-snoc b c cs))
      (λ n. ground (arith, n, sent_of-snoc b c cs))

-- The buffer holds what these pieces, written one after the other, leave in it; and the pieces of
-- each stream are those that were sent, and behind them the one that is not sent yet, if any.
abbrev pub IsKept : ℕ → ScreenSession → List Piece → Type 0
IsKept n s ps =
    (s.ring_buffer ≡ write_all (map (λ p. p.1) ps) (new_buffer n))
    × ((b : Bool) → stream_of b ps ≡ sent_of b s.sent ++ listed (unsent_of b s))

abbrev pub IsKeeping : ℕ → ScreenSession → Type 0
IsKeeping n s = (ps : List Piece) × IsKept n s ps

-- What holds of a screen in each state of its waiter.
by_waiter :
    {A : Type 0} (P : A → Type 0) (w : Waiter) {a b c : A}
    → P a
    → P b
    → P c
    → P (elim w [ starting ↦ a | waiting ↦ b | waited ↦ c ])
by_waiter P starting pa pb pc = pa
by_waiter P waiting pa pb pc = pb
by_waiter P waited pa pb pc = pc

finish-IsKeeping : (n code : ℕ) (s : ScreenSession) → IsKeeping n s → IsKeeping n (finish code s)
unfolding finish
finish-IsKeeping n code s (ps, (held, streams)) = (
  ps,
  (
    held,
    λ b.
        streams b
        ∙ ap (λ l. l ++ listed (unsent_of b s))
            (sym (sent_of-snoc b (eof_chunk code s) s.sent ∙ append-nil (sent_of b s.sent))),
  ),
)

waiter_has-IsKeeping :
    (n code : ℕ) (s : ScreenSession) → IsKeeping n s → IsKeeping n (waiter_has code s)
unfolding waiter_has
waiter_has-IsKeeping n code s h =
    if_both (IsKeeping n) s.info.pty (λ t. h)
      (λ f. finish-IsKeeping n code (record s { waiter = waited }) h)

-- The pieces of the streams, and what was sent of them.
abbrev AreSent : List Piece → ScreenSession → Type 0
AreSent ps s = (b : Bool) → stream_of b ps ≡ sent_of b s.sent ++ listed (unsent_of b s)

-- A piece more, where everything else of its stream was sent.
written-AreSent :
    (d b : Bool) (t : Text) (ps : List Piece) (s : ScreenSession)
    → unsent_of d s ≡ none
    → AreSent ps s
    → stream_of b (ps ++ (d, t) ∷ [])
      ≡ sent_of b s.sent ++ listed (unsent_of b (set_unsent d (some t) s))
written-AreSent true false t ps s free streams =
    stream_of-snoc false true t ps ∙ append-nil (stream_of false ps) ∙ streams false
written-AreSent false true t ps s free streams =
    stream_of-snoc true false t ps ∙ append-nil (stream_of true ps) ∙ streams true
written-AreSent true true t ps s free streams =
    stream_of-snoc true true t ps
    ∙ ap (λ l. l ++ t ∷ [])
        (streams true
          ∙ ap (λ u. sent_of true s.sent ++ listed u) free
          ∙ append-nil (sent_of true s.sent))
written-AreSent false false t ps s free streams =
    stream_of-snoc false false t ps
    ∙ ap (λ l. l ++ t ∷ [])
        (streams false
          ∙ ap (λ u. sent_of false s.sent ++ listed u) free
          ∙ append-nil (sent_of false s.sent))

-- The piece that was not sent is sent.
sent-AreSent :
    (d b : Bool) (t : Text) (ps : List Piece) (s : ScreenSession)
    → unsent_of d s ≡ some t
    → AreSent ps s
    → stream_of b ps
      ≡ sent_of b (s.sent ++ output_chunk d t s ∷ []) ++ listed (unsent_of b (set_unsent d none s))
sent-AreSent true false t ps s held streams =
    streams false
    ∙ ap (λ l. l ++ listed s.out_unsent)
        (sym
          (sent_of-snoc false (output_chunk true t s) s.sent ∙ append-nil (sent_of false s.sent)))
sent-AreSent false true t ps s held streams =
    streams true
    ∙ ap (λ l. l ++ listed s.err_unsent)
        (sym (sent_of-snoc true (output_chunk false t s) s.sent ∙ append-nil (sent_of true s.sent)))
sent-AreSent true true t ps s held streams =
    streams true
    ∙ ap (λ u. sent_of true s.sent ++ listed u) held
    ∙ sym (
        append-nil (sent_of true (s.sent ++ output_chunk true t s ∷ []))
        ∙ sent_of-snoc true (output_chunk true t s) s.sent)
sent-AreSent false false t ps s held streams =
    streams false
    ∙ ap (λ u. sent_of false s.sent ++ listed u) held
    ∙ sym (
        append-nil (sent_of false (s.sent ++ output_chunk false t s ∷ []))
        ∙ sent_of-snoc false (output_chunk false t s) s.sent)

on_output-IsKeeping :
    (n : ℕ) (d : Bool) (t : Text) (s : ScreenSession)
    → unsent_of d s ≡ none
    → IsKeeping n s
    → IsKeeping n (on_output d t s)
unfolding on_output
on_output-IsKeeping n d t s free (ps, (held, streams)) =
    (ps ++ (d, t) ∷ [], (by_stream d, λ b. flags d b (written-AreSent d b t ps s free streams)))
  where
    grown :
        write t s.ring_buffer
        ≡ write_all (map (λ (p : Piece). p.1) (ps ++ (d, t) ∷ [])) (new_buffer n)
    grown =
        ap (write t) held
        ∙ sym (write_all-snoc (map (λ (p : Piece). p.1) ps) t (new_buffer n))
        ∙ ap (λ l. write_all l (new_buffer n))
            (sym (map-append (λ (p : Piece). p.1) ps ((d, t) ∷ [])))

    by_stream :
        (e : Bool)
        → (set_unsent e (some t) (record s { ring_buffer = write t s.ring_buffer })).ring_buffer
          ≡ write_all (map (λ (p : Piece). p.1) (ps ++ (d, t) ∷ [])) (new_buffer n)
    by_stream true = grown
    by_stream false = grown

    flags :
        (e b : Bool) {l : List Text}
        → l ≡ sent_of b s.sent ++ listed (unsent_of b (set_unsent e (some t) s))
        → l
          ≡ sent_of b
              (set_unsent e (some t) (record s { ring_buffer = write t s.ring_buffer })).sent
            ++ listed (
                unsent_of b
                  (set_unsent e (some t) (record s { ring_buffer = write t s.ring_buffer })))
    flags true b h = h
    flags false b h = h

on_send-IsKeeping :
    (n : ℕ) (d : Bool) (s : ScreenSession) → IsKeeping n s → IsKeeping n (on_send d s)
unfolding on_send
on_send-IsKeeping n true s (ps, (held, streams)) = elim (Option-cases s.err_unsent) [
  | inl e ↦ rw (on_send, e) (ps, (held, streams))
  | inr (t, e) ↦ rw (on_send, e) (ps, (held, λ b. sent-AreSent true b t ps s e streams))
]
on_send-IsKeeping n false s (ps, (held, streams)) = elim (Option-cases s.out_unsent) [
  | inl e ↦ rw (on_send, e) (ps, (held, streams))
  | inr (t, e) ↦ rw (on_send, e) (ps, (held, λ b. sent-AreSent false b t ps s e streams))
]

-- A reader that reads has sent everything.
can_read-unsent : (d : Bool) (s : ScreenSession) → can_read d s ≡ true → unsent_of d s ≡ none
can_read-unsent d s h = elim (Option-cases (unsent_of d s)) [
  | inl e ↦ e
  | inr (t, e) ↦ absurd (ground (arith, e, h))
]

step-IsKeeping : (n : ℕ) (e : Event) (s : ScreenSession) → IsKeeping n s → IsKeeping n (step e s)
unfolding step waiter_takes reader_ends kill_child
step-IsKeeping n takes s h =
    by_waiter (IsKeeping n) s.waiter
      (if_both (IsKeeping n) s.child (λ t. h) (λ f. waiter_has-IsKeeping n 0 s h)) h h
step-IsKeeping n (child_exits code) s h =
    by_waiter (IsKeeping n) s.waiter h (waiter_has-IsKeeping n code s h) h
step-IsKeeping n master_dropped s h =
    by_waiter (IsKeeping n) s.waiter h h (if_both (IsKeeping n) s.info.pty (λ t. h) (λ f. h))
step-IsKeeping n (outputs is_stderr bytes) s h =
    if_both (IsKeeping n) (can_read is_stderr s)
      (λ t. on_output-IsKeeping n is_stderr bytes s (can_read-unsent is_stderr s t) h) (λ f. h)
step-IsKeeping n (sends is_stderr) s h = on_send-IsKeeping n is_stderr s h
step-IsKeeping n output_ends s h =
    if_both (IsKeeping n) (s.info.pty && can_read false s)
      (λ t.
        finish-IsKeeping n (elim s.exit_code_holder [ none ↦ 0 | some code ↦ code ])
          (record s { reading = false }) h)
      (λ f. h)
step-IsKeeping n terminate_begins s h = h
step-IsKeeping n terminate_ends s h =
    by_waiter {A = Option ScreenSession} (λ o. IsKeeping n (elim o [ none ↦ s | some s' ↦ s' ]))
      s.waiter h h h

run-IsKeeping :
    (n : ℕ) (es : List Event) (s : ScreenSession) → IsKeeping n s → IsKeeping n (run es s)
unfolding run
run-IsKeeping n [] s h = h
run-IsKeeping n (e ∷ es) s h = run-IsKeeping n es (step e s) (step-IsKeeping n e s h)

session_history :
    (screen_id : Text) (screens : Screens) (s : ScreenSession)
    → lookup screen_id screens ≡ some s
    → get_history screen_id screens ≡ ok s.ring_buffer.buffer
unfolding get_history session_of
session_history screen_id screens s h = ground (arith, h)

-- Whatever the threads and callers of a screen do, its history is the end, as long as the capacity of
-- the buffer, of its output: of pieces of the two streams in some order, where those of each stream
-- are the ones that were sent to the subscribers, in their order, and behind them at most one that is
-- not sent yet.
pub get_history-latest :
    (screen_id : Text) (opts : SpawnOptions) (now : ℕ) (es : List Event) (screens : Screens)
    → lookup screen_id screens ≡ some (run es (spawned screen_id opts now))
    → let s = run es (spawned screen_id opts now) in
      (ps : List Piece) × (get_history screen_id screens
        ≡ ok (latest (max opts.buffer_capacity 1) (concat (map (λ p. p.1) ps))))
      × ((b : Bool) → stream_of b ps ≡ sent_of b s.sent ++ listed (unsent_of b s))
unfolding write_all
get_history-latest screen_id opts now es screens h =
    let n = opts.buffer_capacity in
    let (ps, (held, streams)) =
      run-IsKeeping n es (spawned screen_id opts now) ([], (refl, λ b. empty b)) in
    (
      ps,
      session_history screen_id screens (run es (spawned screen_id opts now)) h
          ∙ ap ok (ap (λ r. r.buffer) held ∙ write_all-latest n (map (λ (p : Piece). p.1) ps)),
      streams,
    )
  where
    empty : (b : Bool) → ◌≡◌ {A = List Text} [] (listed (unsent_of b (spawned screen_id opts now)))
    empty true = refl
    empty false = refl
