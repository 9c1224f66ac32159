-- ===== src/State/Phase.antt =====
-- The phase and status of a tenant, derived from its machines (internal/state/status.go).
mod Defs
pub mod Laws
unfoldable pub use Defs.*
