-- ===== src/Http.antt =====
-- internal/listener/http_proxy.go: the HTTP proxy. Reading and writing messages with net/http and
-- decoding base64 are arguments; the handler takes the relay of a plain request, Forward, as one too.
pub mod Responses
pub mod Handler
pub mod Headers
pub mod Forward
pub mod Safety
pub mod Tests
