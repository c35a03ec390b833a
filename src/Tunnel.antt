-- ===== src/Tunnel.antt =====
-- The tunnel between the agents and the gateway: its frames, the gateway's sessions, the client.
pub mod Frames
pub mod Sessions
pub mod Gateway
pub mod Client
