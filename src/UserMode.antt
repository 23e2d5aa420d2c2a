-- ===== src/UserMode.antt =====
-- kernel/src/usermode.rs: the machine code of the demos, the statics of a session in user mode, and the way there
-- and back.
pub mod Builder
pub mod Session
pub mod Cpu
pub mod Runs
pub mod Demos
pub mod Phases
pub mod Refused
pub mod Setup
mod Tests
