-- ===== src/Tunnel/Client/Pending.antt =====
-- syntropy-tunnel/src/client.rs: the one place for a frame that could not be sent.
use syntropy.Prelude.{◌≡◌, true, some, List, [], ◌∷◌, arith}
use syntropy.Tunnel.Frames.{TunnelClientFrame}
use syntropy.Tunnel.Client.{
  TunnelConfig, Worker, connecting, establish, established, on_outbound, outbound_ready, phase_no,
  send_or_leave, leave_stream, worker_run, worker_step,
}

-- A worker that is connecting with a frame kept back: when the stream that opens is broken at once,
-- and a frame of the application fails on it too, the later frame takes the place of the first,
-- which then is neither kept back, nor on the stream, nor in the channel.
pub pending_overwritten :
    (c : TunnelConfig) (w : Worker) (kept frame : TunnelClientFrame) (rest : List TunnelClientFrame)
    → phase_no w.phase ≡ phase_no connecting
    → w.pending_frame ≡ some kept
    → w.outbound ≡ frame ∷ rest
    → let w' = worker_run c (established true ∷ outbound_ready true ∷ []) w in
      (w'.pending_frame ≡ some frame) × (w'.outbound ≡ rest) × (w'.on_stream ≡ [])
unfolding worker_run worker_step establish on_outbound send_or_leave leave_stream
pending_overwritten c w kept frame rest phase held out = (
  ground (arith, phase, held, out),
  ground (arith, phase, held, out),
  ground (arith, phase, held, out),
)
