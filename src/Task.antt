-- ===== src/Task.antt =====
-- kernel/src/task.rs, the scheduler's task table.
pub mod Data
pub mod Table
pub mod Control
pub mod Slots
pub mod Loops
pub mod Invariant
pub mod Bodies
pub mod History
pub mod Select
pub mod Step
pub mod Ran
pub mod Spec
pub mod View
pub mod Refine
pub mod Spawn
pub mod Listing
pub mod Fairness
pub mod Names
mod Tests
