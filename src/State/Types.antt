-- ===== src/State/Types.antt =====
-- The resources of internal/state/store.go: every one has metadata, a spec and a status. A
-- time.Time is a number of nanoseconds, a json.RawMessage its text, an `int` that is a count a
-- natural number.
mod Tenants
mod Machines
mod Accounts
pub use Tenants.*
pub use Machines.*
pub use Accounts.*
