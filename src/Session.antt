-- ===== src/Session.antt =====
-- The session that the server of internal/mcp/server.go keeps with its client: negotiation, request
-- identifiers, running tool calls with their cancellation, and progress.
pub mod Version
pub mod Ids
pub mod Progress
pub mod Registry
pub mod Calls
pub mod Kept
pub mod Ends
pub mod Lifecycle
pub mod Silence
pub mod Cancellation
pub mod Reached
mod Examples
