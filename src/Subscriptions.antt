-- ===== src/Subscriptions.antt =====
-- Resource subscriptions and the notifiers that they are delivered to, internal/mcp/resources.go and
-- internal/mcp/notifier_hub.go.
pub mod Table
pub mod Counts
pub mod Kept
pub mod Runs
pub mod Delivery
pub mod Receipts
mod Examples
