-- ===== src/Server.antt =====
-- internal/server: the session cookie and the access control of the HTTP server.
pub mod Session
pub mod Auth
pub mod SelfKey
pub mod Tests
