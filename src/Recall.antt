-- ===== src/Recall.antt =====
-- kernel/src/main.rs: the history of command lines.
pub mod Ring
pub mod Spec
pub mod Ages
pub mod Refine
mod Tests
