-- ===== src/UserMode/Session.antt =====
-- kernel/src/usermode.rs: the statics, `init_memory`, the start of a demo and its end. `enter_user_mode` does
-- not return: the answer `ok` of a start is the context with which it is called.
use jing_os.Base.{
  ℕ, ◌+◌, Bool, true, false, ◌&&◌, Option, none, some, List, replicate, ◌==◌, if◌then◌else◌, Result,
  ok, err, and_then, Bytes, bytes,
}
use jing_os.Memory.Mapper.{Mapper, State, write_bytes}
use jing_os.Memory.Mapping.{present_writable_user, map_page_with_flags}
use jing_os.Syscall.Abi.{
  SyscallRegisters, syscall_status_ok, syscall_status_unknown_number, syscall_status_overflow,
}
use jing_os.UserMode.Builder.{
  user_fast_syscall_unknown_number, UserCode, as_slice, build_fast_syscall_success_code,
  build_fast_syscall_error_code, user_int_demo_code,
}

abbrev pub user_code_start : ℕ
user_code_start = 0x0000_6666_0000_0000

abbrev pub user_stack_start : ℕ
user_stack_start = 0x0000_6666_0000_8000

abbrev pub user_stack_top : ℕ
user_stack_top = user_stack_start + 0x2000

pub record UserModeContext : Type 0 where
  pub entry : ℕ
  pub stack_top : ℕ

pub data FastSyscallDemoKind : Type 0 where
  success_path error_path : FastSyscallDemoKind

pub record FastSyscallDemoReport : Type 0 where
  pub kind : FastSyscallDemoKind
  pub call0_value : ℕ
  pub call0_status : ℕ
  pub call1_value : ℕ
  pub call1_status : ℕ

abbrev pub kind_text : FastSyscallDemoKind → Bytes
kind_text success_path = bytes "success-path"
kind_text error_path = bytes "error-path"

abbrev pub kind_name : FastSyscallDemoReport → Bytes
kind_name r = kind_text r.kind

abbrev pub summary_text : FastSyscallDemoKind → Bytes
summary_text success_path = bytes "call0 status=0; call1 value=42 status=0 (SYSCALL_ADD 40+2)"
summary_text error_path =
    bytes "call0 value=0xffff_ff00 status=1 (unknown syscall); call1 value=0 status=2 (overflow)"

abbrev pub expected_summary : FastSyscallDemoReport → Bytes
expected_summary r = summary_text r.kind

abbrev pub passed_as : FastSyscallDemoKind → FastSyscallDemoReport → Bool
passed_as success_path r =
    r.call0_status == syscall_status_ok
    && r.call1_value == 42
    && r.call1_status == syscall_status_ok
passed_as error_path r =
    r.call0_value == user_fast_syscall_unknown_number
    && r.call0_status == syscall_status_unknown_number
    && r.call1_value == 0
    && r.call1_status == syscall_status_overflow

unfoldable pub passed : FastSyscallDemoReport → Bool
passed r = passed_as r.kind r

-- `USER_MODE_CONTEXT`, `LAST_FAST_SYSCALL_REPORT`, `PENDING_FAST_SYSCALL_KIND` and
-- `USERMODE_EXIT_EXPECTED`.
pub record Session : Type 0 where
  pub context : Option UserModeContext
  pub last_report : Option FastSyscallDemoReport
  pub pending_kind : Option FastSyscallDemoKind
  pub exit_expected : Bool

abbrev pub no_session : Session
no_session = record {
  context = none;
  last_report = none;
  pending_kind = none;
  exit_expected = false;
}

-- `write_demo_code`: a page of `nop`, and the code over its start.
unfoldable pub write_demo_code : List ℕ → (ℕ → ℕ) → ℕ → ℕ
write_demo_code code memory =
    write_bytes (write_bytes memory user_code_start (replicate 4096 0x90)) user_code_start code

module _ (m : Mapper) where
  -- The three calls of `map_page_with_flags`.
  abbrev pub map_user_pages : State m → Result (Unit {0}) Bytes × State m
  map_user_pages s =
      and_then
        (and_then (map_page_with_flags m s user_code_start present_writable_user)
          (λ s'. map_page_with_flags m s' user_stack_start present_writable_user))
        (λ s'. map_page_with_flags m s' (user_stack_start + 0x1000) present_writable_user)

  -- What is behind them.
  abbrev pub set_context :
      Session → Result (Unit {0}) Bytes × State m → Result (Unit {0}) Bytes × State m × Session
  set_context u (ok t, s) = (
    ok tt,
    record s { memory = write_demo_code user_int_demo_code s.memory },
    record u { context = some (record { entry = user_code_start; stack_top = user_stack_top }) },
  )
  set_context u (err e, s) = (err e, s, u)

  unfoldable pub init_memory : State m → Session → Result (Unit {0}) Bytes × State m × Session
  init_memory s u = set_context u (map_user_pages s)

abbrev pub Started : Type 0
Started = Result UserModeContext Bytes × Session × (ℕ → ℕ)

-- `run_demo_code`, by the context.
abbrev pub start_in :
    Option UserModeContext → List ℕ → Option FastSyscallDemoKind → Session → (ℕ → ℕ) → Started
start_in none code kind u memory = (err (bytes "user mode memory not initialized"), u, memory)
start_in (some context) code kind u memory = (
  ok context,
  record u { pending_kind = kind; last_report = none; exit_expected = true },
  write_demo_code code memory,
)

unfoldable pub run_demo_code : List ℕ → Option FastSyscallDemoKind → Session → (ℕ → ℕ) → Started
run_demo_code code fast_syscall_kind u memory = start_in u.context code fast_syscall_kind u memory

unfoldable pub run_demo : Session → (ℕ → ℕ) → Started
run_demo u memory = run_demo_code user_int_demo_code none u memory

-- `?` on the code, and the start.
abbrev pub run_built : Result UserCode Bytes → FastSyscallDemoKind → Session → (ℕ → ℕ) → Started
run_built (err e) kind u memory = (err e, u, memory)
run_built (ok code) kind u memory = run_demo_code (as_slice code) (some kind) u memory

unfoldable pub run_fast_syscall_demo : Session → (ℕ → ℕ) → Started
run_fast_syscall_demo u memory = run_built build_fast_syscall_success_code success_path u memory

unfoldable pub run_fast_syscall_error_demo : Session → (ℕ → ℕ) → Started
run_fast_syscall_error_demo u memory = run_built build_fast_syscall_error_code error_path u memory

unfoldable pub take_last_fast_syscall_report : Session → Option FastSyscallDemoReport × Session
take_last_fast_syscall_report u = (u.last_report, record u { last_report = none })

abbrev pub report_of : Option FastSyscallDemoKind → SyscallRegisters → Option FastSyscallDemoReport
report_of none r = none
report_of (some kind) r = some (record {
  kind = kind;
  call0_value = r.r8;
  call0_status = r.r9;
  call1_value = r.r10;
  call1_status = r.r12;
})

-- Whether the monitor resumes, and the statics.
unfoldable pub handle_exit_interrupt_from_registers : SyscallRegisters → Session → Bool × Session
handle_exit_interrupt_from_registers registers u =
    if u.exit_expected
    then (
      true,
      record u {
        exit_expected = false;
        pending_kind = none;
        last_report = report_of u.pending_kind registers;
      },
    )
    else (false, u)
