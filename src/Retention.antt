-- ===== src/Retention.antt =====
-- business/sdk/retention: what a run deletes and how the hourly rollup is kept in step.
pub mod Model
pub mod Batches
pub mod Purge
pub mod Run
pub mod Cutoff
