-- ===== src/ApplyQueue.antt =====
-- The per-tenant reconciliation queue (internal/applyqueue/queue.go).
mod Scheduler
mod Steps
unfoldable pub use Scheduler.*
pub use Steps.*
pub mod Serial
pub mod Wakeup
pub mod PhaseOrder
mod Tests
