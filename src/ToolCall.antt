-- ===== src/ToolCall.antt =====
-- The dispatch of one tools/call, internal/mcp/tools.go: lookup, rate limit, validation,
-- confirmation, the handler and its audit record.
pub mod Types
pub mod Confirmation
pub mod Dispatch
pub mod Gate
pub mod Answer
pub mod TwoStep
mod Examples
