-- ===== src/Syscall.antt =====
-- kernel/src/syscall.rs: the dispatcher, the register ABI of `int 0x80` and of `syscall`, and the
-- set-up of the fast path.
pub mod Abi
pub mod Entry
pub mod Fast
pub mod Stages
pub mod Laws
mod Tests
