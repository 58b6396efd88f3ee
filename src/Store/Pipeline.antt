-- ===== src/Store/Pipeline.antt =====
-- internal/updater/store_scan_pipeline.go: one scan of the Store, from the inventory to the snapshot.
pub mod Sanitize
pub mod Settle
pub mod Sound
pub mod Healthy
pub mod Reliable
pub mod Identities
pub mod Status
pub mod ProductIds
pub mod Assessments
pub mod Plan
pub mod Reuse
pub mod Work
pub mod Collect
pub mod Providers
pub mod Scan
pub mod Backed
pub mod Retained
pub mod Reused
pub mod Planned
pub mod Runs
pub mod Checked
pub mod Accepted
pub mod Handed
pub mod Handled
pub mod Answered
