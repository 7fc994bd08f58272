-- ===== src/Cache.antt =====
-- tracing-cache/src.
pub mod Ids
pub mod Record
pub mod Pool
pub mod Driver
pub mod Predicate
pub mod Slab
pub mod Subscriber
