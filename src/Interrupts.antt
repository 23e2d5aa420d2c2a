-- ===== src/Interrupts.antt =====
-- kernel/src/interrupts.rs: the scancode ring, the timer, and the state that the handlers keep.
pub mod Scancodes
pub mod Fifo
pub mod Ring
pub mod Pit
pub mod Handlers
pub mod Timing
mod Tests
