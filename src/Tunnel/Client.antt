-- ===== src/Tunnel/Client.antt =====
-- syntropy-tunnel/src/client.rs: the worker that keeps the tunnel open, one event at a time.
pub mod Reconnects
pub mod Pending
pub mod Handle
use syntropy.Prelude.{
  Option-cases, ◌^◌, ℕ, zero, suc, ◌≡◌, ◌≢◌, ◌↔◌, ◌⊎◌, inl, inr, ◌≤◌, ◌<◌, ◌+◌, ◌-◌, ◌*◌, ◌%◌, ◌/◌,
  min, max, refl, sym, ap, ◌∙◌, Bool, true, false, not, ◌&&◌, ◌||◌, Option, none, some, List, [],
  ◌∷◌, ◌++◌, map, Text, lit, text_eq, text_eq_iff, text_eq_refl, Dict, lookup, insert, remove,
  Result, ok, err, ◌>>=◌, ◌>>◌, guard, with_ok, Result-cases, Bool-cases, ok-injective,
  if◌then◌else◌, length, take, drop, get_elem?, ltb, leb, ◌==◌, ==_iff, lookup-insert,
  lookup-remove, lookup-insert_self, dict_laws, arith, append-nil, append_assoc, length-append,
  text_lines, join, List-cases, if_both, drop-append, take-append,
}
use syntropy.Tunnel.Frames.{Heartbeat, TunnelClientFrame, client_heartbeat}

-- The options that the worker reads. `mul_f64(backoff_factor)` is a function on milliseconds.
pub record TunnelConfig : Type 0 where
  pub agent_id : Text
  pub initial_reconnect_delay : ℕ
  pub max_reconnect_delay : ℕ
  pub backoff : ℕ → ℕ
  pub max_reconnect_attempts : Option ℕ
  pub heartbeat_interval : Option ℕ

-- Where the worker stands: at the head of its loop, before the answer of the server, in the loop on
-- a stream, asleep, and behind the loop.
pub data Phase : Type 0 where
  at_head connecting streaming asleep stopped : Phase

-- The variables of the worker, the channels, and what went onto each connection.
pub record Worker : Type 0 where
  pub phase : Phase
  pub current_delay : ℕ
  pub attempts : ℕ
  pub pending_frame : Option TunnelClientFrame
  pub heartbeat_seq : ℕ
  pub connected : Bool
  pub shutdown : Bool
  pub outbound : List TunnelClientFrame
  pub inbound : List Text
  pub on_stream : List TunnelClientFrame

abbrev pub stop_worker : Worker → Worker
stop_worker w = record w { phase = stopped; connected = false }

abbrev pub tired : TunnelConfig → Worker → Bool
tired c w = elim c.max_reconnect_attempts [ none ↦ false | some n ↦ leb n w.attempts ]

-- The head of the loop.
unfoldable pub begin_attempt : TunnelConfig → Worker → Worker
begin_attempt c w =
    if w.shutdown
    then stop_worker w
    else if tired c w
    then stop_worker w
    else record w { phase = connecting; attempts = w.attempts + 1 }

-- No channel, or a call that is rejected.
unfoldable pub refuse : Worker → Worker
refuse w = record w { phase = asleep }

-- The delay is over.
unfoldable pub wake : TunnelConfig → Worker → Worker
wake c w = record w {
  phase = at_head;
  current_delay = min (c.backoff w.current_delay) c.max_reconnect_delay;
}

-- `shutdown_rx.changed()` in place of the end of the delay, while nothing is connected.
unfoldable pub interrupt : Worker → Worker
interrupt w = if w.shutdown then stop_worker w else record w { phase = at_head }

-- A frame is sent to the stream, or kept for the next one if the stream is broken.
abbrev pub transmit : Bool → TunnelClientFrame → Worker → Worker
transmit broken frame w =
    if broken
    then record w { pending_frame = some frame }
    else record w { on_stream = w.on_stream ++ frame ∷ [] }

-- The call is accepted: the delay starts again, and a pending frame goes first.
unfoldable pub establish : TunnelConfig → Bool → Worker → Worker
establish c broken w =
    let w1 = record w {
      phase = streaming;
      connected = true;
      current_delay = c.initial_reconnect_delay;
      attempts = 0;
      on_stream = [];
      pending_frame = none;
    } in
    elim w.pending_frame [ none ↦ w1 | some frame ↦ transmit broken frame w1 ]

-- The end of the loop on a stream.
unfoldable pub leave_stream : Worker → Worker
leave_stream w = record w { phase = asleep; connected = false }

-- A send that fails ends the stream.
unfoldable pub send_or_leave : Bool → TunnelClientFrame → Worker → Worker
unfolding leave_stream
send_or_leave broken frame w =
    if broken then leave_stream (transmit true frame w) else transmit false frame w

-- A frame of the application, or the end of its channel.
unfoldable pub on_outbound : Bool → Worker → Worker
unfolding send_or_leave
on_outbound broken w = elim w.outbound [
  | [] ↦ stop_worker w
  | frame ∷ rest ↦ send_or_leave broken frame (record w { outbound = rest })
]

abbrev pub heartbeat_of : TunnelConfig → Text → ℕ → ℕ → TunnelClientFrame
heartbeat_of c uuid now sequence = record {
  frame_id = uuid;
  timestamp_unix_ms = now;
  agent_id = c.agent_id;
  payload = some (
      client_heartbeat (record {
        sequence = sequence;
        timestamp_unix_ms = now;
        agent_id = c.agent_id;
        is_ack = false;
      }));
}

unfoldable pub on_heartbeat : TunnelConfig → Text → ℕ → Bool → Worker → Worker
unfolding send_or_leave
on_heartbeat c uuid now broken w = elim c.heartbeat_interval [
  | none ↦ w
  | some interval ↦
      send_or_leave broken (heartbeat_of c uuid now (w.heartbeat_seq + 1))
        (record w { heartbeat_seq = w.heartbeat_seq + 1 })
]

-- A frame of the server, which the application may no longer want.
unfoldable pub on_inbound : Bool → Text → Worker → Worker
on_inbound receiver_dropped frame w =
    if receiver_dropped then stop_worker w else record w { inbound = w.inbound ++ frame ∷ [] }

unfoldable pub on_shutdown : Worker → Worker
unfolding leave_stream
on_shutdown w = if w.shutdown then leave_stream w else w

-- What the worker meets, and the calls of the handle: `send` puts a frame into the channel, and
-- `close` asks for the end.
pub data WorkerEvent : Type 0 where
  begins refused woken interrupted server_ends shutdown_seen closes : WorkerEvent
  established : Bool → WorkerEvent
  outbound_ready : Bool → WorkerEvent
  heartbeat_due : Text → ℕ → Bool → WorkerEvent
  inbound_ready : Bool → Text → WorkerEvent
  sends : TunnelClientFrame → WorkerEvent

abbrev pub phase_no : Phase → ℕ
phase_no at_head = 0
phase_no connecting = 1
phase_no streaming = 2
phase_no asleep = 3
phase_no stopped = 4

abbrev pub when : Phase → Phase → (Worker → Worker) → Worker → Worker
when p q f w = if phase_no p == phase_no q then f w else w

-- An event that the worker does not wait for in its phase changes nothing.
unfoldable pub worker_step : TunnelConfig → WorkerEvent → Worker → Worker
unfolding begin_attempt refuse wake interrupt establish leave_stream on_outbound on_heartbeat
    on_inbound on_shutdown
worker_step c begins w = when w.phase at_head (begin_attempt c) w
worker_step c refused w = when w.phase connecting refuse w
worker_step c woken w = when w.phase asleep (wake c) w
worker_step c interrupted w = when w.phase asleep interrupt w
worker_step c server_ends w = when w.phase streaming leave_stream w
worker_step c shutdown_seen w = when w.phase streaming on_shutdown w
worker_step c closes w = record w { shutdown = true }
worker_step c (established broken) w = when w.phase connecting (establish c broken) w
worker_step c (outbound_ready broken) w = when w.phase streaming (on_outbound broken) w
worker_step c (heartbeat_due uuid now broken) w =
    when w.phase streaming (on_heartbeat c uuid now broken) w
worker_step c (inbound_ready dropped frame) w = when w.phase streaming (on_inbound dropped frame) w
worker_step c (sends frame) w = record w { outbound = w.outbound ++ frame ∷ [] }

unfoldable pub worker_run : TunnelConfig → List WorkerEvent → Worker → Worker
unfolding worker_step
worker_run c [] w = w
worker_run c (e ∷ es) w = worker_run c es (worker_step c e w)

abbrev pub new_worker : TunnelConfig → Worker
new_worker c = record {
  phase = at_head;
  current_delay = c.initial_reconnect_delay;
  attempts = 0;
  pending_frame = none;
  heartbeat_seq = 0;
  connected = false;
  shutdown = false;
  outbound = [];
  inbound = [];
  on_stream = [];
}
