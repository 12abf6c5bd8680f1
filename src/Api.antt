-- ===== src/Api.antt =====
-- internal/api: the public subscription list of the admin server.
pub mod Text
pub mod Subscription
pub mod Served
pub mod Tests
