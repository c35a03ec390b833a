-- ===== src/Exec/Screens.antt =====
-- pty_mux.rs: the screens of the multiplexer, outside the threads that serve them.
pub mod Threads
pub mod Table
pub mod Ended
pub mod History
pub mod Calls
use syntropy.Prelude.{
  Option-cases, ◌^◌, ℕ, zero, suc, ◌≡◌, ◌≢◌, ◌↔◌, ◌⊎◌, inl, inr, ◌≤◌, ◌<◌, ◌+◌, ◌-◌, ◌*◌, ◌%◌, ◌/◌,
  min, max, refl, sym, ap, ◌∙◌, Bool, true, false, not, ◌&&◌, ◌||◌, Option, none, some, List, [],
  ◌∷◌, ◌++◌, map, Text, lit, text_eq, text_eq_iff, text_eq_refl, Dict, lookup, insert, remove,
  Result, ok, err, ◌>>=◌, ◌>>◌, guard, with_ok, Result-cases, Bool-cases, ok-injective,
  if◌then◌else◌, length, take, drop, get_elem?, ltb, leb, ◌==◌, ==_iff, lookup-insert,
  lookup-remove, lookup-insert_self, dict_laws, arith,
}
use syntropy.Exec.RingBuffer.{RingBuffer, new_buffer}

pub data PtyError : Type 0 where
  screen_already_exists : Text → PtyError
  screen_not_found : Text → PtyError
  session_closed : PtyError
  pty_system : Text → PtyError
  io : Text → PtyError
  spawn_failed : Text → Text → PtyError

-- An exit code stands for its 32 bits.
pub data ScreenStatus : Type 0 where
  running : ScreenStatus
  exited : ℕ → ScreenStatus
  terminated : ScreenStatus
  failed : Text → ScreenStatus

pub record OutputChunk : Type 0 where
  pub session_id : Text
  pub bytes : Text
  pub is_stderr : Bool
  pub is_eof : Bool
  pub exit_code : Option ℕ

pub record ScreenInfo : Type 0 where
  pub screen_id : Text
  pub command : Text
  pub args : List Text
  pub cwd : Option Text
  pub pty : Bool
  pub status : ScreenStatus
  pub created_at : ℕ
  pub exit_code : Option ℕ
  pub rows : ℕ
  pub cols : ℕ

pub record SpawnOptions : Type 0 where
  pub command : Text
  pub args : List Text
  pub cwd : Option Text
  pub env : Dict Text
  pub pty : Bool
  pub rows : ℕ
  pub cols : ℕ
  pub buffer_capacity : ℕ

abbrev pub default_options : Text → SpawnOptions
default_options command = record {
  command = command;
  args = [];
  cwd = none;
  env = [];
  pty = true;
  rows = 24;
  cols = 80;
  buffer_capacity = 512 * 1024;
}

-- The thread that waits for the child: before it takes the child out of its slot, inside `wait`,
-- while the guard of the slot's mutex lives on in the `if let`, and behind it.
pub data Waiter : Type 0 where
  starting waiting waited : Waiter

-- A screen: `writer`, `master` and `child` tell whether the slot holds a value, where `child` is
-- the one of the two slots for children that the screen uses. The holder of the exit code and the
-- threads belong to the screen: what each reader has written to the buffer and not sent yet, and so
-- do the bytes that were written to the child, whether `kill` was called, whether a call of
-- `terminate` dropped the master of a terminal, which on Windows closes the console and ends what
-- runs in it, and the chunks that were sent.
pub record ScreenSession : Type 0 where
  pub info : ScreenInfo
  pub writer : Bool
  pub master : Bool
  pub child : Bool
  pub ring_buffer : RingBuffer
  pub exit_code_holder : Option ℕ
  pub waiter : Waiter
  pub reading : Bool
  pub input : Text
  pub out_unsent : Option Text
  pub err_unsent : Option Text
  pub killed : Bool
  pub hung_up : Bool
  pub sent : List OutputChunk

abbrev pub is_running : ScreenStatus → Bool
is_running running = true
is_running (exited code) = false
is_running terminated = false
is_running (failed e) = false

abbrev pub set_status : ScreenStatus → ScreenInfo → ScreenInfo
set_status st i = record i { status = st }

-- What `spawn_screen` puts into the table.
abbrev pub spawned : Text → SpawnOptions → ℕ → ScreenSession
spawned screen_id opts now = record {
  info = record {
    screen_id = screen_id;
    command = opts.command;
    args = opts.args;
    cwd = opts.cwd;
    pty = opts.pty;
    status = running;
    created_at = now;
    exit_code = none;
    rows = opts.rows;
    cols = opts.cols;
  };
  writer = true;
  master = opts.pty;
  child = true;
  ring_buffer = new_buffer opts.buffer_capacity;
  exit_code_holder = none;
  waiter = starting;
  reading = true;
  input = [];
  out_unsent = none;
  err_unsent = none;
  killed = false;
  hung_up = false;
  sent = [];
}

-- `terminate`, up to the mutex of the child: the writer and the master are closed.
abbrev pub close_handles : ScreenSession → ScreenSession
close_handles s = record s { writer = false; master = false; hung_up = s.hung_up || s.master }

-- `terminate` from there: it waits for the mutex, which the waiter holds while it waits.
unfoldable pub kill_child : ScreenSession → Option ScreenSession
kill_child s = elim s.waiter [
  | waiting ↦ none
  | starting ↦ some (record s {
    child = false;
    killed = s.killed || s.child;
    info = set_status terminated s.info;
  })
  | waited ↦ some (record s {
    child = false;
    killed = s.killed || s.child;
    info = set_status terminated s.info;
  })
]

-- What writing to the child or resizing its terminal gives: a write that fails has taken some of
-- the bytes.
pub data Attempt : Type 0 where
  done : Attempt
  broken : Text → ℕ → Attempt

unfoldable pub write_to : Text → Attempt → ScreenSession → Result PtyError ScreenSession × Text
write_to bytes attempt s =
    if s.writer
    then elim attempt [
      | done ↦ (ok (record s { input = s.input ++ bytes }), bytes)
      | broken e n ↦ (err (io e), take n bytes)
    ]
    else (err session_closed, [])

unfoldable pub resize_to : ℕ → ℕ → Attempt → ScreenSession → Result PtyError ScreenSession
resize_to rows cols attempt s =
    if s.master
    then elim attempt [
      | done ↦ ok (record s { info = record s.info { rows = rows; cols = cols } })
      | broken e n ↦ err (pty_system e)
    ]
    else err session_closed
