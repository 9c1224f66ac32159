-- ===== src/Upgrade.antt =====
-- Rolling upgrades (internal/upgrade/rolling.go and manager.go).
mod Rolling
unfoldable pub use Rolling.*
pub mod Endings
pub mod Order
mod Tests
