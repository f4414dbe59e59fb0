-- ===== src/RateLimit.antt =====
-- The limits on tool calls, internal/mcp/rate_limit.go: token buckets by risk tier, and the caps on
-- concurrent calls by risk family.
pub mod Bucket
pub mod Burst
pub mod Tier
pub mod Family
mod Examples
