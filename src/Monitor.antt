-- ===== src/Monitor.antt =====
-- kernel/src/main.rs: the monitor's keys, its automatic scheduler and its wait for the timer.
pub mod Numbers
pub mod Printed
pub mod Words
pub mod Commands
pub mod Promised
pub mod SameTasks
pub mod StepCommands
pub mod TaskCommands
pub mod Addresses
pub mod Effects
pub mod Auto
pub mod Keys
pub mod Ready
pub mod Typed
pub mod Completion
mod Tests
mod CommandTests
