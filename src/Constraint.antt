-- ===== src/Constraint.antt =====
-- crates/paramodel-elements/src/constraint.rs: the constraint algebra.
mod Bytes
mod Tree
mod Meaning
mod Canonical
mod Integer
mod Text
mod Double
mod Boolean
mod Selection
mod Connectives
mod Kinds
mod Examples
