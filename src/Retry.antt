-- ===== src/Retry.antt =====
-- The retry loop of the Clockify client, internal/clockify/client.go.
pub mod Request
pub mod Attempts
pub mod Recorded
mod Examples
