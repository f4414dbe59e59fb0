-- ===== src/SizeGuard.antt =====
-- The cap on the size of tool results, internal/mcp/response_size_guard.go.
pub mod Search
pub mod Largest
pub mod Envelope
pub mod Overwrite
pub mod Result
mod Examples
