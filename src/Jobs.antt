-- ===== src/Jobs.antt =====
-- Operation jobs: the queue of package operations and scans.
pub mod Status
pub mod Scheduler
pub mod Queue
pub mod Batch
pub mod Runs
mod Witnesses
