-- ===== src/Runtime.antt =====
-- crates/kelvin-core/src/runtime.rs: the registry of runs, the lanes that keep the runs of a
-- session apart, and the tasks that the runtime spawns. Each type and operation has a child module.
pub mod Types
pub mod Registry
pub mod Lanes
pub mod Tasks
pub mod Counting
pub mod Effects
pub mod Marks
pub mod Invariant
pub mod Safety
pub mod Outcomes
pub mod Waiting
pub mod Liveness
