-- ===== src/Exec/Screens/Threads.antt =====
-- pty_mux.rs: the threads of a screen, which `spawn_screen` starts, one event at a time.
use syntropy.Prelude.{
  ℕ, Bool, Option, true, false, not, ◌&&◌, none, some, List, [], ◌∷◌, ◌++◌, Text, if◌then◌else◌,
}
use syntropy.Exec.RingBuffer.{write}
use syntropy.Exec.Screens.{
  OutputChunk, ScreenSession, exited, starting, waiting, waited, close_handles, kill_child,
}

abbrev pub output_chunk : Bool → Text → ScreenSession → OutputChunk
output_chunk is_stderr bytes s = record {
  session_id = s.info.screen_id;
  bytes = bytes;
  is_stderr = is_stderr;
  is_eof = false;
  exit_code = none;
}

abbrev pub eof_chunk : ℕ → ScreenSession → OutputChunk
eof_chunk code s = record {
  session_id = s.info.screen_id;
  bytes = [];
  is_stderr = false;
  is_eof = true;
  exit_code = some code;
}

-- What the reader of a stream has written to the buffer and not sent yet.
abbrev pub unsent_of : Bool → ScreenSession → Option Text
unsent_of is_stderr s = if is_stderr then s.err_unsent else s.out_unsent

abbrev pub set_unsent : Bool → Option Text → ScreenSession → ScreenSession
set_unsent true bytes s = record s { err_unsent = bytes }
set_unsent false bytes s = record s { out_unsent = bytes }

-- A reader reads on when it has sent what it read before. A terminal has no second stream.
abbrev pub can_read : Bool → ScreenSession → Bool
can_read is_stderr s =
    s.reading
    && not (s.info.pty && is_stderr)
    && elim (unsent_of is_stderr s) [ none ↦ true | some bytes ↦ false ]

-- `ring.write(&data)`
unfoldable pub on_output : Bool → Text → ScreenSession → ScreenSession
unfolding write
on_output is_stderr bytes s =
    set_unsent is_stderr (some bytes) (record s { ring_buffer = write bytes s.ring_buffer })

-- `tx.send(chunk)`
unfoldable pub on_send : Bool → ScreenSession → ScreenSession
on_send is_stderr s = elim (unsent_of is_stderr s) [
  | none ↦ s
  | some bytes ↦
      set_unsent is_stderr none (record s { sent = s.sent ++ output_chunk is_stderr bytes s ∷ [] })
]

-- The status and the last chunk, from the reader of a terminal or the waiter of a process.
unfoldable pub finish : ℕ → ScreenSession → ScreenSession
finish code s = record s {
  info = record s.info { status = exited code; exit_code = some code };
  sent =
      s.sent
      ++ record {
        session_id = s.info.screen_id;
        bytes = [];
        is_stderr = false;
        is_eof = true;
        exit_code = some code;
      }
        ∷ [];
}

-- The waiter has a code: on a terminal it leaves it to the reader.
unfoldable pub waiter_has : ℕ → ScreenSession → ScreenSession
unfolding finish
waiter_has code s =
    if s.info.pty
    then record s { exit_code_holder = some code; waiter = waited }
    else finish code (record s { waiter = waited })

-- The waiter takes the child, or finds the slot empty.
unfoldable pub waiter_takes : ScreenSession → ScreenSession
unfolding waiter_has
waiter_takes s = if s.child then record s { child = false; waiter = waiting } else waiter_has 0 s

-- The reader of a terminal at the end of the output: without a code after fifty rounds it takes 0.
unfoldable pub reader_ends : ScreenSession → ScreenSession
unfolding finish
reader_ends s =
    finish (elim s.exit_code_holder [ none ↦ 0 | some code ↦ code ]) (record s { reading = false })

-- What the threads and the callers of `terminate` do.
pub data Event : Type 0 where
  takes : Event
  child_exits : ℕ → Event
  master_dropped : Event
  outputs : Bool → Text → Event
  sends : Bool → Event
  output_ends : Event
  terminate_begins : Event
  terminate_ends : Event

-- An event for which the screen is not ready changes nothing.
unfoldable pub step : Event → ScreenSession → ScreenSession
unfolding on_output on_send waiter_has waiter_takes reader_ends kill_child
step takes s = elim s.waiter [ starting ↦ waiter_takes s | waiting ↦ s | waited ↦ s ]
step (child_exits code) s = elim s.waiter [
  | starting ↦ s
  | waiting ↦ waiter_has code s
  | waited ↦ s
]
step master_dropped s = elim s.waiter [
  | starting ↦ s
  | waiting ↦ s
  | waited ↦ if s.info.pty then record s { master = false } else s
]
step (outputs is_stderr bytes) s = if can_read is_stderr s then on_output is_stderr bytes s else s
step (sends is_stderr) s = on_send is_stderr s
step output_ends s = if s.info.pty && can_read false s then reader_ends s else s
step terminate_begins s = close_handles s
step terminate_ends s = elim (kill_child s) [ none ↦ s | some s' ↦ s' ]

unfoldable pub run : List Event → ScreenSession → ScreenSession
unfolding step
run [] s = s
run (e ∷ es) s = run es (step e s)
