-- ===== src/Tunnel.antt =====
-- internal/tunnel/tunnel.go: resolving credentials and dialling an upstream.
pub mod Acquire
pub mod Grants
pub mod Live
pub mod Dial
pub mod Links
pub mod Tests
