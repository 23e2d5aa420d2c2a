-- ===== src/Keyboard.antt =====
-- kernel/src/keyboard.rs: the decoder of scancodes into key events.
pub mod Tables
pub mod Decoder
pub mod Modifiers
pub mod Typing
mod Tests
