-- ===== src/Plan.antt =====
-- The plan model (crates/paramodel-plan).
pub mod Samples
pub mod Axis
pub mod Elements
pub mod Validation
pub mod Reorder
pub mod Step
pub mod Graph
