-- ===== src/Reconcile.antt =====
-- What carries out a reconciliation (internal/reconcile): the bus between the state store's
-- changes and the apply queue, the applier, the status tracker and the enricher.
mod Bus
pub mod Keys
pub mod Tokens
pub mod Minting
pub mod Stable
pub mod Slots
pub mod Render
pub mod Cleaning
pub mod Rendered
pub mod Applier
pub mod Versions
pub mod Changes
pub mod Order
pub mod Applied
pub mod Guard
pub mod Teardown
pub mod Cleared
pub mod Status
pub mod Tracking
pub mod Feedback
pub mod Enricher
pub mod Enriched
pub mod Merging
unfoldable pub use Bus.*
mod Tests
