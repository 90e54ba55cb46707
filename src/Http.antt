-- ===== src/Http.antt =====
-- internal/httpapi/server.go: the HTTP server.
pub mod Access
pub mod Links
pub mod Request
pub mod Served
pub mod Sessions
pub mod Tests
pub mod Upload
