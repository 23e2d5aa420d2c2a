-- ===== src/Host.antt =====
-- src/main.rs: the launcher that runs the kernel in an emulator and feeds it a serial script.
pub mod Forwarder
pub mod Marker
mod Tests
