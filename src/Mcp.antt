-- ===== src/Mcp.antt =====
-- crates/syntropy-mcp: the proxy in front of a tool server, and the supervisor of its process.
pub mod Protocol
pub mod Allowlist
pub mod Breaker
pub mod Proxy
pub mod Supervisor
