-- ===== src/Api.antt =====
-- internal/api/server.go: the rate limiter, and the routes of the server.
pub mod Limiter
pub mod Router
pub mod Reboots
