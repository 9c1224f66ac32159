-- ===== src/TfBackend.antt =====
-- The OpenTofu/Terraform HTTP backend (internal/tfbackend): one state blob and one lock for each
-- workspace.
mod Store
mod Handler
pub mod Locking
pub mod Protocol
unfoldable pub use Store.*
unfoldable pub use Handler.*
mod Tests
