-- ===== src/TfBackend/Locking.antt =====
-- Who holds the lock of a workspace (internal/tfbackend).
pub mod Kept
pub mod Exclusion
