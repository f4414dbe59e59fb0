-- ===== src/Breaker.antt =====
-- The per-endpoint circuit breaker of the HTTP client, internal/clockify/circuit_breaker.go: its
-- methods, and what any sequence of calls leaves true.
pub mod Steps
pub mod Invariant
pub mod Isolation
pub mod Opening
mod Examples
