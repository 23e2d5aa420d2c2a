-- ===== src/UserMode/Refused.antt =====
-- kernel/src/usermode.rs: before `init_memory` has succeeded, no demo starts.
use jing_os.Base.{ℕ, ◌≡◌, ap, Option, none, List, err, bytes}
use jing_os.UserMode.Session.{
  FastSyscallDemoKind, Session, start_in, run_demo_code, run_demo, run_fast_syscall_demo,
  run_fast_syscall_error_demo,
}
use jing_os.UserMode.Demos.{success_code_lem, error_code_lem, int_code_lem}

-- The start of each demo is refused.
pub record Refused (u : Session) (memory : ℕ → ℕ) : Type 0 where
  pub int_demo : (run_demo u memory).0 ≡ err (bytes "user mode memory not initialized")
  pub fast_demo :
      (run_fast_syscall_demo u memory).0 ≡ err (bytes "user mode memory not initialized")
  pub error_demo :
      (run_fast_syscall_error_demo u memory).0 ≡ err (bytes "user mode memory not initialized")

pub none-Refused : (u : Session) (memory : ℕ → ℕ) → u.context ≡ none → Refused u memory
unfolding run_demo_code
none-Refused u memory e =
    let refused : (code : List ℕ) (kind : Option FastSyscallDemoKind)
        → (run_demo_code code kind u memory).0 ≡ err (bytes "user mode memory not initialized") =
      λ code kind. ap (λ o. (start_in o code kind u memory).0) e in
    record {
      int_demo = rw (int_code_lem u memory) (refused _ _);
      fast_demo = rw (success_code_lem u memory) (refused _ _);
      error_demo = rw (error_code_lem u memory) (refused _ _);
    }
