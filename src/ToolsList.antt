-- ===== src/ToolsList.antt =====
-- tools/list, internal/mcp/tools.go: the advertised tools in order, their cache, and the pages.
pub mod Build
pub mod Pages
pub mod Complete
mod Examples
