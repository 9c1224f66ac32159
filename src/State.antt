-- ===== src/State.antt =====
-- The state store of the management plane (internal/state).
pub mod Types
pub mod Tables
pub mod Resources
pub mod WellFormed
pub mod Rows
pub mod Amend
pub mod Concurrency
pub mod Lifecycle
pub mod BindingToken
pub mod Teardown
pub mod Operations
pub mod Finalizers
pub mod Listing
pub mod Json
pub mod Tenants
pub mod Machines
pub mod Accounts
pub mod Phase
pub mod Reads
pub mod Cascade
pub mod Secrets
mod Tests
