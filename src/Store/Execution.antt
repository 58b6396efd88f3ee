-- ===== src/Store/Execution.antt =====
-- internal/updater/store_update_execution.go: one update of a Store package, from the request to the
-- verified result. What the runner, the inventory, the catalog, the events and the clock give is a
-- value of World.
pub mod Request
pub mod Events
pub mod Verify
pub mod Messages
pub mod Runners
pub mod Executor
