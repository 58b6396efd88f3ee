-- ===== src/Packages.antt =====
-- Packages: their keys, what may be updated, and how the results of package actions are read.
pub mod Model
pub mod Policy
pub mod Selection
pub mod Retry
pub mod Attempts
pub mod Targets
pub mod Revalidation
pub mod InventoryRetry
mod Witnesses
