-- ===== src/Exec/Screens/Ended.antt =====
-- pty_mux.rs: screens that have ended or are ended.
use syntropy.Prelude.{ℕ, ◌≡◌, ◌≢◌, refl, false, none, List, [], ◌∷◌, Text, err, arith}
use syntropy.Exec.Screens.{
  session_closed, Attempt, waiting, close_handles, write_to, spawned, SpawnOptions, ScreenSession,
  starting, kill_child, is_running,
}
use syntropy.Exec.Screens.Threads.{
  on_output, finish, waiter_has, waiter_takes, reader_ends, Event, takes, child_exits,
  master_dropped, outputs, sends, on_send, output_ends, terminate_begins, terminate_ends, step, run,
}

step-ended :
    (e : Event) (s : ScreenSession)
    → is_running s.info.status ≡ false
    → is_running (step e s).info.status ≡ false
unfolding step on_output on_send finish waiter_has waiter_takes reader_ends kill_child
step-ended takes s h = ground arith
step-ended (child_exits code) s h = ground arith
step-ended master_dropped s h = ground arith
step-ended (outputs is_stderr bytes) s h = ground arith
step-ended (sends is_stderr) s h = ground arith
step-ended output_ends s h = ground arith
step-ended terminate_begins s h = h
step-ended terminate_ends s h = ground arith

-- A screen that is not running is never running again, whatever its threads and callers do.
pub run-ended :
    (es : List Event) (s : ScreenSession)
    → is_running s.info.status ≡ false
    → is_running (run es s).info.status ≡ false
unfolding run
run-ended [] s h = h
run-ended (e ∷ es) s h = run-ended es (step e s) (step-ended e s h)

-- The child is out of its slot and has no terminal, no call of `kill` was made and no terminal was
-- dropped.
abbrev pub IsTaken : ScreenSession → Type 0
IsTaken s =
    (s.child ≡ false)
    × (s.killed ≡ false)
    × (s.waiter ≢ starting)
    × (s.master ≡ false)
    × (s.hung_up ≡ false)

step-IsTaken : (e : Event) (s : ScreenSession) → IsTaken s → IsTaken (step e s)
unfolding step on_output on_send finish waiter_has waiter_takes reader_ends kill_child
step-IsTaken takes s (a, b, c, d, f) = ground arith
step-IsTaken (child_exits code) s (a, b, c, d, f) = ground arith
step-IsTaken master_dropped s (a, b, c, d, f) = ground arith
step-IsTaken (outputs is_stderr bytes) s (a, b, c, d, f) = ground arith
step-IsTaken (sends is_stderr) s (a, b, c, d, f) = ground arith
step-IsTaken output_ends s (a, b, c, d, f) = ground arith
step-IsTaken terminate_begins s (a, b, c, d, f) = ground arith
step-IsTaken terminate_ends s (a, b, c, d, f) = ground arith

run-IsTaken : (es : List Event) (s : ScreenSession) → IsTaken s → IsTaken (run es s)
unfolding run
run-IsTaken [] s h = h
run-IsTaken (e ∷ es) s h = run-IsTaken es (step e s) (step-IsTaken e s h)

-- Once the waiter of a new screen without a terminal has taken the child, no caller of `terminate`
-- calls `kill` on it, whatever happens, nor drops a terminal that it runs in.
pub never_killed :
    (screen_id : Text) (opts : SpawnOptions) (now : ℕ) (es : List Event)
    → opts.pty ≡ false
    → let s = run (takes ∷ es) (spawned screen_id opts now) in
      (s.killed ≡ false) × (s.hung_up ≡ false)
unfolding run step waiter_takes
never_killed screen_id opts now es piped =
    let taken =
      run-IsTaken es (waiter_takes (spawned screen_id opts now))
        (refl, refl, (λ h. ground arith), piped, refl) in
    (taken.1, taken.4)

-- The events of a time in which the child does not exit.
abbrev pub IsNotExit : Event → Type 0
IsNotExit (child_exits code) = ⊥
IsNotExit takes = Unit
IsNotExit master_dropped = Unit
IsNotExit (outputs is_stderr bytes) = Unit
IsNotExit (sends is_stderr) = Unit
IsNotExit output_ends = Unit
IsNotExit terminate_begins = Unit
IsNotExit terminate_ends = Unit

abbrev pub IsWithoutExit : List Event → Type 0
IsWithoutExit [] = Unit
IsWithoutExit (e ∷ es) = IsNotExit e × IsWithoutExit es

step-waits :
    (e : Event) (s : ScreenSession) → IsNotExit e → s.waiter ≡ waiting → (step e s).waiter ≡ waiting
unfolding step on_output on_send finish waiter_has waiter_takes reader_ends kill_child
step-waits takes s n h = ground arith
step-waits (child_exits code) s n h = absurd n
step-waits master_dropped s n h = ground arith
step-waits (outputs is_stderr bytes) s n h = ground arith
step-waits (sends is_stderr) s n h = ground arith
step-waits output_ends s n h = ground arith
step-waits terminate_begins s n h = h
step-waits terminate_ends s n h = ground arith

run-waits :
    (es : List Event) (s : ScreenSession)
    → IsWithoutExit es
    → s.waiter ≡ waiting
    → (run es s).waiter ≡ waiting
unfolding run
run-waits [] s n h = h
run-waits (e ∷ es) s (n, ns) h = run-waits es (step e s) ns (step-waits e s n h)

-- And as long as the child does not exit, `terminate` waits.
pub terminate_waits :
    (screen_id : Text) (opts : SpawnOptions) (now : ℕ) (es : List Event)
    → IsWithoutExit es
    → kill_child (close_handles (run (takes ∷ es) (spawned screen_id opts now))) ≡ none
unfolding run step waiter_takes kill_child
terminate_waits screen_id opts now es n =
    let s = run es (waiter_takes (spawned screen_id opts now)) in
    let waits : s.waiter ≡ waiting =
      run-waits es (waiter_takes (spawned screen_id opts now)) n refl in
    ground (arith, waits)

-- What a closed writer means for the callers.
step-closed : (e : Event) (s : ScreenSession) → s.writer ≡ false → (step e s).writer ≡ false
unfolding step on_output on_send finish waiter_has waiter_takes reader_ends kill_child
step-closed takes s h = ground arith
step-closed (child_exits code) s h = ground arith
step-closed master_dropped s h = ground arith
step-closed (outputs is_stderr bytes) s h = ground arith
step-closed (sends is_stderr) s h = ground arith
step-closed output_ends s h = ground arith
step-closed terminate_begins s h = refl
step-closed terminate_ends s h = ground arith

run-closed : (es : List Event) (s : ScreenSession) → s.writer ≡ false → (run es s).writer ≡ false
unfolding run
run-closed [] s h = h
run-closed (e ∷ es) s h = run-closed es (step e s) (step-closed e s h)

-- After `terminate` has begun, no input reaches the child any more: every write is refused and
-- takes nothing, even while the call itself waits.
pub write_to-closed :
    (es : List Event) (s : ScreenSession) (bytes : Text) (attempt : Attempt)
    → write_to bytes attempt (run (terminate_begins ∷ es) s) ≡ (err session_closed, [])
unfolding run step write_to
write_to-closed es s bytes attempt =
    let closed = run-closed es (close_handles s) refl in ground (arith, closed)
