-- ===== src/Pagination.antt =====
-- Limit and offset of a list request (internal/pagination/pagination.go).
mod Parse
unfoldable pub use Parse.*
pub mod Bounds
