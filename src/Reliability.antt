-- ===== src/Reliability.antt =====
-- The package internal/reliability: the circuit breaker, and retries with backoff.
pub mod Breaker
pub mod Retry
