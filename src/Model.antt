-- ===== src/Model.antt =====
-- tracing-console/src/model.
pub mod Reals
pub mod Order
pub mod Rate
pub mod Graph
pub mod Explore
pub mod Visible
pub mod Core
pub mod Update
pub mod Reduce
