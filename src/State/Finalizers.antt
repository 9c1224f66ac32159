-- ===== src/State/Finalizers.antt =====
-- Finalizer-controlled deletion (store.go, "Finalizer Operations").
mod Defs
pub mod Invariant
unfoldable pub use Defs.{write_finalizers, add_finalizer, remove_finalizer, without, is_deleting}
