-- ===== src/Tests.antt =====
-- Concrete values for the interfaces, and examples of the theorems at concrete inputs.
mod Instances
mod Platforms
mod Host
mod Model
mod Console
mod Numbers
mod Tree
mod Slabs
mod Ids
mod Cache
mod Driver
mod Values
mod Aggregate
