-- ===== src/User.antt =====
-- kernel/src/user_program.rs: the user demo.
pub mod Program
mod Tests
