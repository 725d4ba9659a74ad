-- ===== src/Scheduler.antt =====
-- crates/paramodel-executor/src/scheduler.rs. The scheduler's state is behind one mutex that each
-- method holds throughout, so a method is a function from the state to the state.
pub mod State
pub mod Resources
pub mod Policy
pub mod Operations
pub mod Invariant
pub mod Marks
pub mod Failure
pub mod Termination
mod Candidates
pub mod Dispatch
pub mod Start
pub mod Progress
pub mod Drive
pub mod Budget
pub mod Cascade
pub mod Rotation
pub mod Samples
pub mod Validated
mod Examples
