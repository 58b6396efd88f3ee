-- ===== src/Store.antt =====
-- The Microsoft Store part of internal/updater: evidence, assessments and their authorisation.
pub mod Diagnostics
pub mod Model
pub mod Inventory
pub mod Offers
pub mod Evidence
pub mod Reconcile
pub mod Snapshot
pub mod Freshness
pub mod Versions
pub mod Authorize
pub mod Execution
pub mod Pipeline
mod Witnesses
