-- ===== src/Daemon/Forward.antt =====
-- syntropy-daemon/src/orchestrator.rs: the task of `handle_exec_command` that sends the chunks of a
-- screen on to the server, over what it receives from the screen's channel.
use syntropy.Prelude.{
  ℕ, ◌≡◌, refl, ap, ◌∙◌, ◌-◌, ◌^◌, Bool, true, false, Option, none, some, List, [], ◌∷◌, ◌++◌, map,
  append-nil, Text, Result, ok, err, if◌then◌else◌, ltb,
}
use syntropy.Tunnel.Frames.{Reply, terminal_output}
use syntropy.Security.Ledger.Database.{I64, pos, negsuc}
use syntropy.Exec.Screens.{OutputChunk}

-- Why `rx.recv()` gives no chunk: the receiver was too slow and lost some, or no sender is left.
pub data RecvError : Type 0 where
  lagged : ℕ → RecvError
  closed : RecvError

-- An `i32` of its 32 bits.
unfoldable pub to_i32 : ℕ → I64
to_i32 n = if ltb n (2 ^ 31) then pos n else negsuc (2 ^ 32 - 1 - n)

-- `chunk.exit_code.unwrap_or(0)`
unfoldable pub exit_code_of : Option ℕ → I64
unfolding to_i32
exit_code_of none = pos 0
exit_code_of (some code) = to_i32 code

unfoldable pub forwarded : Text → OutputChunk → Reply
unfolding exit_code_of
forwarded session_id chunk = terminal_output (record {
  session_id = session_id;
  bytes = chunk.bytes;
  is_stderr = chunk.is_stderr;
  is_eof = chunk.is_eof;
  exit_code = exit_code_of chunk.exit_code;
})

-- What was received, with whether the client's channel still takes a frame at that time.
abbrev pub Received : Type 0
Received = Result RecvError OutputChunk × Bool

-- `while let Ok(chunk) = rx.recv().await`: the frames that are sent.
unfoldable pub forward : Text → List Received → List Reply
unfolding forwarded
forward session_id [] = []
forward session_id ((err e, is_open) ∷ rs) = []
forward session_id ((ok chunk, is_open) ∷ rs) =
    let rest = forward session_id rs in
    if is_open then forwarded session_id chunk ∷ (if chunk.is_eof then [] else rest) else []

-- Chunks of a screen that goes on, each of which the client's channel takes.
abbrev pub on_time : OutputChunk → Received
on_time chunk = (ok chunk, true)

abbrev pub IsOngoing : List OutputChunk → Type 0
IsOngoing [] = Unit
IsOngoing (chunk ∷ chunks) = (chunk.is_eof ≡ false) × IsOngoing chunks

forward-ongoing :
    (session_id : Text) (chunk : OutputChunk) (rs : List Received)
    → chunk.is_eof ≡ false
    → forward session_id (on_time chunk ∷ rs) ≡ forwarded session_id chunk ∷ forward session_id rs
unfolding forward
forward-ongoing session_id chunk rs goes_on =
    ap (λ b. forwarded session_id chunk ∷ (if b then [] else forward session_id rs)) goes_on

forward-last :
    (session_id : Text) (chunk : OutputChunk) (rs : List Received)
    → chunk.is_eof ≡ true
    → forward session_id (on_time chunk ∷ rs) ≡ forwarded session_id chunk ∷ []
unfolding forward
forward-last session_id chunk rs ended =
    ap (λ b. forwarded session_id chunk ∷ (if b then [] else forward session_id rs)) ended

forward-append :
    (session_id : Text) (chunks : List OutputChunk) (rs : List Received)
    → IsOngoing chunks
    → forward session_id (map on_time chunks ++ rs)
      ≡ map (forwarded session_id) chunks ++ forward session_id rs
forward-append session_id [] rs ongoing = refl
forward-append session_id (chunk ∷ chunks) rs (goes_on, ongoing) =
    forward-ongoing session_id chunk (map on_time chunks ++ rs) goes_on
    ∙ ap (λ fs. forwarded session_id chunk ∷ fs) (forward-append session_id chunks rs ongoing)

-- As long as the channels work, every chunk becomes one frame, in order. The last chunk of a screen
-- is the last frame, whatever is received behind it. When the receiver falls behind or is closed
-- before that, the frames end there: none of what comes later is sent, the last chunk with its exit
-- code included.
pub forward-in_order :
    (session_id : Text) (chunks : List OutputChunk) (last : OutputChunk) (e : RecvError)
    (is_open : Bool) (later : List Received)
    → IsOngoing chunks
    → last.is_eof ≡ true
    → (forward session_id (map on_time chunks ++ on_time last ∷ later)
        ≡ map (forwarded session_id) chunks ++ forwarded session_id last ∷ [])
      × (forward session_id (map on_time chunks ++ (err e, is_open) ∷ later)
          ≡ map (forwarded session_id) chunks)
unfolding forward
forward-in_order session_id chunks last e is_open later ongoing ended = (
  forward-append session_id chunks (on_time last ∷ later) ongoing
      ∙ ap (λ fs. map (forwarded session_id) chunks ++ fs)
          (forward-last session_id last later ended),
  forward-append session_id chunks ((err e, is_open) ∷ later) ongoing
      ∙ append-nil (map (forwarded session_id) chunks),
)
