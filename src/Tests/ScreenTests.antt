-- ===== src/Tests/ScreenTests.antt =====
-- Two screens of four bytes, `a` on a terminal and `b` on pipes.
use syntropy.Prelude.{
  ◌++◌, map, Bool, ◌≡◌, refl, true, false, some, List, [], ◌∷◌, lit, text_eq, lookup, insert,
  remove, ok,
}
use syntropy.Exec.RingBuffer.{new_buffer, write}
use syntropy.Exec.RingBuffer.Latest.{latest, concat}
use syntropy.Exec.Screens.{
  SpawnOptions, ScreenSession, spawned, default_options, done, kill_child, write_to, is_running,
  exited,
}
use syntropy.Exec.Screens.Threads.{
  on_output, finish, waiter_has, waiter_takes, reader_ends, Event, takes, child_exits, outputs,
  sends, on_send, unsent_of, output_ends, terminate_begins, terminate_ends, step, run,
}
use syntropy.Exec.Screens.Table.{
  Screens, started, check_free, start, spawn_screen, session_of, terminate, is_active,
  cleanup_screen, get_history, write_input,
}
use syntropy.Exec.Screens.Ended.{never_killed}
use syntropy.Exec.Screens.History.{Piece, stream_of, sent_of, listed, get_history-latest}

program : Unit {0}
unfolding text_eq lookup insert remove new_buffer write on_output on_send finish waiter_has
    waiter_takes reader_ends step run kill_child write_to check_free start spawn_screen session_of
    terminate is_active cleanup_screen get_history write_input
program = tt

abbrev shell : SpawnOptions
shell = record (default_options (lit "sh")) { buffer_capacity = 4 }

abbrev screen : ScreenSession
screen = spawned (lit "a") shell 7

abbrev piped : ScreenSession
piped = spawned (lit "b") (record shell { pty = false }) 8

abbrev life : List Event
life =
    takes
    ∷ outputs false (lit "abc")
    ∷ sends false
    ∷ child_exits 3
    ∷ outputs false (lit "de")
    ∷ sends false
    ∷ output_ends
    ∷ []

abbrev screens : Screens
screens = (lit "a", run life screen) ∷ (lit "b", piped) ∷ []

history : get_history (lit "a") screens ≡ ok (lit "bcde")
unfolding program
history = refl

-- The status of a terminal comes from its reader, that of a process from its waiter.
status_after : (run life screen).info.status ≡ exited 3
unfolding program
status_after = refl

-- An exit overwrites the status of a screen that was terminated.
status_overwritten :
    (run
      (takes ∷ terminate_begins ∷ child_exits 9 ∷ terminate_ends ∷ output_ends ∷ [])
      screen).info.status
    ≡ exited 9
unfolding program
status_overwritten = refl

-- A call of `terminate` before the waiter takes the child kills it.
killed_early : (run (terminate_begins ∷ terminate_ends ∷ takes ∷ []) screen).killed ≡ true
unfolding program
killed_early = refl

types : (write_input (lit "b") (lit "hi") done screens).0 ≡ ok tt
unfolding program
types = refl

found : lookup (lit "a") screens ≡ some (run life screen)
unfolding program
found = refl

get_history-latest_example :
    (ps : List Piece) × (get_history (lit "a") screens ≡ ok (latest 4 (concat (map (λ p. p.1) ps))))
    × ((b : Bool)
        → stream_of b ps
          ≡ sent_of b (run life screen).sent ++ listed (unsent_of b (run life screen)))
get_history-latest_example = get_history-latest (lit "a") shell 7 life screens found

stopped : is_running (run (terminate_begins ∷ terminate_ends ∷ []) screen).info.status ≡ false
unfolding program
stopped = refl

abbrev attempts : List Event
attempts = outputs false (lit "x") ∷ terminate_begins ∷ terminate_ends ∷ []

never_killed_example :
    ((run (takes ∷ attempts) piped).killed ≡ false)
    × ((run (takes ∷ attempts) piped).hung_up ≡ false)
never_killed_example = never_killed (lit "b") (record shell { pty = false }) 8 attempts refl

-- A terminal is dropped by the same calls.
hangs_up : (run (takes ∷ attempts) screen).hung_up ≡ true
unfolding program
hangs_up = refl

-- A piece can be in the history before it is sent.
unsent_piece : (run (outputs false (lit "x") ∷ []) piped).sent ≡ []
unfolding program
unsent_piece = refl

free : check_free (lit "c") screens ≡ ok tt
unfolding program
free = refl

spawns :
    spawn_screen (lit "c") shell 9 started screens
    ≡ (ok tt, insert (lit "c") (spawned (lit "c") shell 9) screens)
unfolding program
spawns = refl

terminates : terminate (lit "b") screens ≡ (some (ok tt), (terminate (lit "b") screens).1)
unfolding program
terminates = refl

cleans : cleanup_screen (lit "b") screens ≡ (some (ok tt), (cleanup_screen (lit "b") screens).1)
unfolding program
cleans = refl
