-- ===== src/Effects.antt =====
-- Code that calls the database (database/sql) and the clock (time.Now), and returns a Go `error`:
-- the actions, and the relations that they keep.
pub mod Keeps
mod Core
unfoldable pub use Core.*
