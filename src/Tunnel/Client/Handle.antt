-- ===== src/Tunnel/Client/Handle.antt =====
-- syntropy-tunnel/src/client.rs: the client and its handle, which waits for the first connection and
-- asks the worker to end, and error.rs. Times are milliseconds.
use syntropy.Prelude.{
  ℕ, ◌≡◌, inl, inr, ◌⊎◌, ◌≤◌, refl, ◌==◌, Bool, true, false, List, [], ◌∷◌, ◌++◌, Text, Result, ok,
  err, if◌then◌else◌, length, ltb, Result-cases, ◌≢◌, Bool-cases, arith,
}
use syntropy.Tunnel.Frames.{TunnelClientFrame}
use syntropy.Tunnel.Client.{
  phase_no, TunnelConfig, Phase, at_head, connecting, streaming, asleep, stopped, Worker,
  begin_attempt, refuse, wake, interrupt, establish, leave_stream, send_or_leave, on_outbound,
  on_heartbeat, on_inbound, on_shutdown, WorkerEvent, begins, refused, woken, interrupted,
  server_ends, shutdown_seen, closes, established, outbound_ready, heartbeat_due, inbound_ready,
  sends, worker_step, worker_run, new_worker,
}

-- The errors of a transport and of gRPC are texts here.
pub data TunnelError : Type 0 where
  transport status io send authentication config internal : Text → TunnelError
  connection_closed : TunnelError
  timeout max_reconnect_attempts_exceeded : ℕ → TunnelError

-- The client: the handle's sender of the shutdown channel, as long as it is not taken, and the
-- worker at the other end.
pub record TunnelClient : Type 0 where
  pub has_shutdown_tx : Bool
  pub worker : Worker

-- `TunnelClient::start`
unfoldable pub start : TunnelConfig → TunnelClient
start c = record { has_shutdown_tx = true; worker = new_worker c }

unfoldable pub is_connected : TunnelClient → Bool
is_connected t = t.worker.connected

-- What happens while a caller waits: the worker meets an event, or the caller looks at the channel
-- `connected_rx`, whose sender is gone when the worker has stopped.
pub data Moment : Type 0 where
  works : WorkerEvent → Moment
  looks : Moment

abbrev pub is_gone : Worker → Bool
is_gone w = phase_no w.phase == phase_no stopped

-- `wait_fut` under its timeout, which is over at the end of the moments.
unfoldable pub wait_changed :
    TunnelConfig → ℕ → List Moment → Worker → Result TunnelError (Unit {0}) × Worker
unfolding worker_step
wait_changed c limit [] w = (err (timeout limit), w)
wait_changed c limit (works e ∷ ms) w = wait_changed c limit ms (worker_step c e w)
wait_changed c limit (looks ∷ ms) w =
    let rest = wait_changed c limit ms w in
    if w.connected then (ok tt, w) else if is_gone w then (err connection_closed, w) else rest

unfoldable pub wait_connected :
    TunnelConfig → ℕ → List Moment → TunnelClient → Result TunnelError (Unit {0}) × TunnelClient
unfolding is_connected wait_changed
wait_connected c limit ms t =
    let (r, w) = wait_changed c limit ms t.worker in
    if is_connected t then (ok tt, t) else (r, record t { worker = w })

-- `close`, before it waits for the worker, and `drop`.
unfoldable pub shut_down : TunnelConfig → TunnelClient → TunnelClient
unfolding worker_step
shut_down c t =
    if t.has_shutdown_tx
    then record { has_shutdown_tx = false; worker = worker_step c closes t.worker }
    else t

-- `TunnelClient::connect`: a client that does not get connected in time is dropped.
unfoldable pub connect :
    TunnelConfig → ℕ → List Moment → Result TunnelError (Unit {0}) × TunnelClient
unfolding start wait_connected shut_down
connect c limit ms =
    let (r, t) = wait_connected c limit ms (start c) in
    elim r [ ok u ↦ (ok u, t) | err e ↦ (err e, shut_down c t) ]

-- `send`, behind the wait for a place in the channel: it fails when the worker is gone. The text is
-- the channel's.
unfoldable pub send_frame :
    Text → TunnelClientFrame → TunnelClient → Result TunnelError (Unit {0}) × TunnelClient
send_frame closed frame t = if is_gone t.worker then (err (send closed), t) else (
  ok tt,
  record t { worker = record t.worker { outbound = t.worker.outbound ++ frame ∷ [] } },
)

-- `try_send`, which does not wait for a place.
unfoldable pub try_send :
    ℕ → Text → TunnelClientFrame → TunnelClient → Result TunnelError (Unit {0}) × TunnelClient
unfolding send_frame
try_send channel_capacity refusal frame t =
    if ltb (length t.worker.outbound) channel_capacity
    then send_frame refusal frame t
    else (err (send refusal), t)

-- How far a worker that was asked to end is from its end.
unfoldable pub rank : Phase → ℕ
rank at_head = 1
rank connecting = 4
rank streaming = 3
rank asleep = 2
rank stopped = 0

-- The worker was asked to end; it gets no further away from its end, and begins no attempt.
abbrev IsClosing : Worker → Worker → Type 0
IsClosing w w' = (w'.shutdown ≡ true) × (rank w'.phase ≤ rank w.phase) × (w'.attempts ≤ w.attempts)

-- What a worker on its way to the end has still to meet at most.
abbrev pub ending : List WorkerEvent
ending = refused ∷ shutdown_seen ∷ woken ∷ begins ∷ []

module _ (c : TunnelConfig) where
  step-IsClosing :
      (e : WorkerEvent) (w : Worker) → w.shutdown ≡ true → IsClosing w (worker_step c e w)
  unfolding worker_step rank begin_attempt refuse wake interrupt establish leave_stream
      send_or_leave on_outbound on_heartbeat on_inbound on_shutdown
  step-IsClosing begins w h = ground arith
  step-IsClosing refused w h = ground arith
  step-IsClosing woken w h = ground arith
  step-IsClosing interrupted w h = ground arith
  step-IsClosing server_ends w h = ground arith
  step-IsClosing shutdown_seen w h = ground arith
  step-IsClosing closes w h = ground arith
  step-IsClosing (established broken) w h = ground arith
  step-IsClosing (outbound_ready broken) w h = ground arith
  step-IsClosing (heartbeat_due uuid now broken) w h = ground arith
  step-IsClosing (inbound_ready dropped frame) w h = ground arith
  step-IsClosing (sends frame) w h = ground arith

  run-IsClosing :
      (es : List WorkerEvent) (w : Worker) → w.shutdown ≡ true → IsClosing w (worker_run c es w)
  unfolding worker_run
  run-IsClosing [] w h = (h, omega arith, omega arith)
  run-IsClosing (e ∷ es) w h =
      let (h', less, fewer) = step-IsClosing e w h in
      let (h'', less', fewer') = run-IsClosing es (worker_step c e w) h' in
      (h'', omega (arith, less, less'), omega (arith, fewer, fewer'))

  refused-falls : (w : Worker) → w.shutdown ≡ true → rank (worker_step c refused w).phase ≤ 3
  unfolding worker_step rank refuse
  refused-falls w h = ground arith

  shutdown_seen-falls :
      (w : Worker)
      → w.shutdown ≡ true
      → rank w.phase ≤ 3
      → rank (worker_step c shutdown_seen w).phase ≤ 2
  unfolding worker_step rank on_shutdown leave_stream
  shutdown_seen-falls w h near = ground arith

  woken-falls : (w : Worker) → rank w.phase ≤ 2 → rank (worker_step c woken w).phase ≤ 1
  unfolding worker_step rank wake
  woken-falls w near = ground arith

  begins-ends :
      (w : Worker)
      → w.shutdown ≡ true
      → rank w.phase ≤ 1
      → ((worker_step c begins w).phase ≡ stopped)
  unfolding worker_step rank begin_attempt
  begins-ends w h near = ground arith

  run-append :
      (es fs : List WorkerEvent) (w : Worker)
      → worker_run c (es ++ fs) w ≡ worker_run c fs (worker_run c es w)
  unfolding worker_run
  run-append [] fs w = refl
  run-append (e ∷ es) fs w = run-append es fs (worker_step c e w)

  ending-ends : (w : Worker) → w.shutdown ≡ true → (worker_run c ending w).phase ≡ stopped
  unfolding worker_run
  ending-ends w h =
      let w1 = worker_step c refused w in
      let w2 = worker_step c shutdown_seen w1 in
      let w3 = worker_step c woken w2 in
      let (h1, l1, f1) = step-IsClosing refused w h in
      let (h2, l2, f2) = step-IsClosing shutdown_seen w1 h1 in
      let (h3, l3, f3) = step-IsClosing woken w2 h2 in
      begins-ends w3 h3 (woken-falls w2 (shutdown_seen-falls w1 h1 (refused-falls w h)))

  -- A connection that the caller saw.
  wait_changed_ok :
      (limit : ℕ) (ms : List Moment) (w : Worker)
      → (wait_changed c limit ms w).0 ≡ ok tt
      → (wait_changed c limit ms w).1.connected ≡ true
  unfolding wait_changed
  wait_changed_ok limit [] w h = absurd (ground arith)
  wait_changed_ok limit (works e ∷ ms) w h = wait_changed_ok limit ms (worker_step c e w) h
  wait_changed_ok limit (looks ∷ ms) w h = elim (Bool-cases w.connected) [
    | inl seen ↦ rw seen refl
    | inr none_yet ↦ elim (Bool-cases (is_gone w)) [
      | inl over ↦ absurd (ground (arith, none_yet, over, h))
      | inr waits ↦ ground (arith, none_yet, waits, h, wait_changed_ok limit ms w)
    ]
  ]

  -- Either `connect` gives a client whose worker is connected; or it fails, and then, whatever the
  -- worker that is left behind meets, four more events at most bring it to its end, and it begins no
  -- attempt on the way.
  pub connect-leaves_none :
      (limit : ℕ) (ms : List Moment) (es : List WorkerEvent)
      → let (r, t) = connect c limit ms in
        ((r ≡ ok tt) × (t.worker.connected ≡ true))
        ⊎ ((r ≢ ok tt)
            × ((worker_run c (es ++ ending) t.worker).phase ≡ stopped)
            × ((worker_run c (es ++ ending) t.worker).attempts ≤ t.worker.attempts))
  unfolding connect wait_connected start is_connected shut_down worker_step
  connect-leaves_none limit ms es = elim (Result-cases (wait_changed c limit ms (new_worker c)).0) [
    | inl (u, e) ↦ rw (connect, e) (inl (refl, wait_changed_ok limit ms (new_worker c) e))
    | inr (u, e) ↦
        let w = record (wait_changed c limit ms (new_worker c)).1 { shutdown = true } in
        let (asked, near, fewer) = run-IsClosing es w refl in
        let (asked', near', fewer') = run-IsClosing ending (worker_run c es w) asked in
        rw (connect, e)
          (inr (
            (λ h. ground arith),
            rw (run-append es ending w) (ending-ends (worker_run c es w) asked),
            rw (run-append es ending w) (omega (arith, fewer, fewer')),
          ))
  ]
