-- ===== src/Exec/Screens/Table.antt =====
-- pty_mux.rs: the table of the screens and the calls of the multiplexer.
use syntropy.Prelude.{
  ℕ, Bool, false, Option, none, some, List, [], ◌∷◌, ◌++◌, Text, Dict, lookup, insert, remove,
  Result, ok, err, ◌>>=◌,
}
use syntropy.Exec.Screens.{
  PtyError, screen_already_exists, screen_not_found, io, spawn_failed, ScreenSession, ScreenInfo,
  Attempt, close_handles, kill_child, is_running, spawned, SpawnOptions, write_to, resize_to,
}

abbrev pub Screens : Type 0
Screens = Dict ScreenSession

-- What the system answers to `spawn_screen`: a terminal or a pipe that is not had, a command that
-- does not start, or a thread that does not start, when the screen is in the table already.
pub data Started : Type 0 where
  started : Started
  no_terminal : PtyError → Started
  not_spawned : Text → Started
  no_thread : Text → Started

-- The first part of `spawn_screen`, which releases the lock at its end.
unfoldable pub check_free : Text → Screens → Result PtyError (Unit {0})
unfolding lookup
check_free screen_id screens = elim (lookup screen_id screens) [
  | some s ↦ err (screen_already_exists screen_id)
  | none ↦ ok tt
]

-- The rest of it.
unfoldable pub start :
    Text → SpawnOptions → ℕ → Started → Screens → Result PtyError (Unit {0}) × Screens
unfolding insert
start screen_id opts now outcome screens = elim outcome [
  | no_terminal e ↦ (err e, screens)
  | not_spawned e ↦ (err (spawn_failed opts.command e), screens)
  | no_thread e ↦ (err (io e), insert screen_id (spawned screen_id opts now) screens)
  | started ↦ (ok tt, insert screen_id (spawned screen_id opts now) screens)
]

unfoldable pub spawn_screen :
    Text → SpawnOptions → ℕ → Started → Screens → Result PtyError (Unit {0}) × Screens
unfolding check_free start
spawn_screen screen_id opts now outcome screens = elim (check_free screen_id screens) [
  | err e ↦ (err e, screens)
  | ok u ↦ start screen_id opts now outcome screens
]

-- `screens.get(screen_id).cloned().ok_or_else(..)?`
unfoldable pub session_of : Text → Screens → Result PtyError ScreenSession
unfolding lookup
session_of screen_id screens = elim (lookup screen_id screens) [
  | none ↦ err (screen_not_found screen_id)
  | some s ↦ ok s
]

unfoldable pub write_input : Text → Text → Attempt → Screens → Result PtyError (Unit {0}) × Screens
unfolding session_of write_to insert
write_input screen_id bytes attempt screens = elim (session_of screen_id screens) [
  | err e ↦ (err e, screens)
  | ok s ↦
      let (r, taken) = write_to bytes attempt s in
      elim r [
        | ok s' ↦ (ok tt, insert screen_id s' screens)
        | err e ↦ (err e, insert screen_id (record s { input = s.input ++ taken }) screens)
      ]
]

unfoldable pub resize : Text → ℕ → ℕ → Attempt → Screens → Result PtyError (Unit {0}) × Screens
unfolding session_of resize_to insert
resize screen_id rows cols attempt screens = elim (session_of screen_id screens) [
  | err e ↦ (err e, screens)
  | ok s ↦ elim (resize_to rows cols attempt s) [
    | ok s' ↦ (ok tt, insert screen_id s' screens)
    | err e ↦ (err e, screens)
  ]
]

-- A call that waits for the mutex has no result yet.
unfoldable pub terminate : Text → Screens → Option (Result PtyError (Unit {0})) × Screens
unfolding session_of kill_child insert
terminate screen_id screens = elim (session_of screen_id screens) [
  | err e ↦ (some (err e), screens)
  | ok s ↦ elim (kill_child (close_handles s)) [
    | none ↦ (none, insert screen_id (close_handles s) screens)
    | some s' ↦ (some (ok tt), insert screen_id s' screens)
  ]
]

abbrev pub infos : Screens → List ScreenInfo
infos [] = []
infos ((k, s) ∷ screens) = s.info ∷ infos screens

abbrev pub list_screens : Screens → List ScreenInfo
list_screens screens = infos screens

unfoldable pub get_screen_info : Text → Screens → Option ScreenInfo
unfolding lookup
get_screen_info screen_id screens = elim (lookup screen_id screens) [
  | none ↦ none
  | some s ↦ some s.info
]

unfoldable pub is_active : Text → Screens → Bool
unfolding lookup
is_active screen_id screens = elim (lookup screen_id screens) [
  | none ↦ false
  | some s ↦ is_running s.info.status
]

unfoldable pub get_history : Text → Screens → Result PtyError Text
unfolding session_of
get_history screen_id screens = session_of screen_id screens >>= λ s. ok s.ring_buffer.buffer

-- The result of `terminate` is left out, so a call that does not wait ends with the removal.
unfoldable pub cleanup_screen : Text → Screens → Option (Result PtyError (Unit {0})) × Screens
unfolding terminate session_of remove
cleanup_screen screen_id screens =
    let (r, after) = terminate screen_id screens in
    elim r [
      | none ↦ (none, after)
      | some u ↦ (some (session_of screen_id after >>= λ s. ok tt), remove screen_id after)
    ]
