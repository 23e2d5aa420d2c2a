-- ===== src/Line.antt =====
-- kernel/src/main.rs: the input line of the monitor.
pub mod Buffer
pub mod Slices
pub mod Shifts
pub mod Spec
pub mod Edits
pub mod Pastes
pub mod Deletes
pub mod Words
pub mod Moves
pub mod Refine
mod Tests
