-- ===== src/Converge.antt =====
-- The converge engine (internal/converge/engine.go).
mod World
mod Deliver
mod Marks
mod Engine
mod Kept
mod Retry
mod Delivery
mod Verdict
mod Disconnect
mod Tests
