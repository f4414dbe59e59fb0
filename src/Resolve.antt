-- ===== src/Resolve.antt =====
-- Identifiers, request paths and the resolution of names, internal/resolve/resolve.go and
-- internal/paths/paths.go. A text is the list of its bytes here.
pub mod Ids
pub mod Paths
pub mod Segments
pub mod Names
pub mod Unique
mod Examples
