-- ===== src/Locks.antt =====
-- The locks that keep operations from running at the same time.
pub mod Scan
mod Witnesses
