-- ===== src/Compiler.antt =====
-- The passes of crates/paramodel-compiler/src/compiler.rs over the steps of a plan.
pub mod Diagnostics
pub mod Binding
pub mod Trials
pub mod Ids
pub mod Configuration
pub mod Edges
pub mod Expansion
pub mod Dedicated
pub mod Exclusive
pub mod Lifeline
pub mod Coalescing
pub mod Notifications
pub mod Readiness
pub mod Instances
pub mod Reduction
pub mod Pipeline
