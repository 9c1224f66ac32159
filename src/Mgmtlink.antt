-- ===== src/Mgmtlink.antt =====
-- The management link's address allocation (internal/mgmtlink/store.go).
mod Prefix
mod Store
unfoldable pub use Prefix.*
unfoldable pub use Store.*
pub mod Allocation
pub mod Uniqueness
pub mod Containment
mod Tests
