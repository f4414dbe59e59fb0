-- ===== src/Pagination.antt =====
-- Lists in pages: the scans of internal/tools/helpers_pagination.go and of internal/clockify/client.go,
-- and the page metadata of list answers.
pub mod Fallible
pub mod Args
pub mod AutoPaginate
pub mod ToolResults
pub mod MergedRows
mod ExactCap
pub mod ListAll
pub mod Meta
mod Examples
mod ScanExamples
