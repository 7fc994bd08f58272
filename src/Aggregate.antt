-- ===== src/Aggregate.antt =====
-- tracing-console/src/aggregate.
pub mod Bucket
pub mod State
pub mod Labels
