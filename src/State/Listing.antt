-- ===== src/State/Listing.antt =====
-- Lists of resources (internal/state/options.go, listtyped.go, and ListResources in store.go).
mod Defs
pub mod Names
pub mod Sorting
pub mod Queries
pub mod Reading
pub mod Pages
unfoldable pub use Defs.*
