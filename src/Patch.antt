-- ===== src/Patch.antt =====
-- Config patches (internal/api/patch/resolve.go).
mod Resolve
unfoldable pub use Resolve.*
mod Ranked
pub mod Precedence
mod Tests
