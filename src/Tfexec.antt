-- ===== src/Tfexec.antt =====
-- The runs of OpenTofu in a tenant's working directory (internal/tfexec).
pub mod World
mod Run
pub mod Segments
pub mod Trace
pub mod Isolation
unfoldable pub use Run.*
mod Tests
