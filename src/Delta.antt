-- ===== src/Delta.antt =====
-- What a subscribed client is sent when a resource changes: the cache of the last documents and the
-- deltas against them, internal/tools/resource_cache.go and internal/tools/resources.go.
pub mod Cache
pub mod Emit
pub mod Mirror
pub mod Watch
mod Examples
