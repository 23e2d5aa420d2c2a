-- ===== src/Screen.antt =====
-- kernel/src/framebuffer.rs: the text console on the framebuffer.
pub mod Writer
pub mod Pixels
pub mod Drawing
pub mod Glyphs
pub mod Scroll
pub mod Spec
pub mod Cells
pub mod Refine
pub mod Console
mod Tests
