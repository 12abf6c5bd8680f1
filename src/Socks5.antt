-- ===== src/Socks5.antt =====
-- internal/listener/socks5.go: the server side of the SOCKS5 handshake.
pub mod Request
pub mod Handler
pub mod RoundTrip
pub mod Safety
pub mod Tests
