-- ===== src/MergePatch.antt =====
-- JSON Merge Patch (RFC 7396), internal/jsonmergepatch/merge_patch.go.
pub mod Patch
pub mod Same
pub mod Lookups
pub mod RoundTrip
pub mod Equivalence
mod Examples
