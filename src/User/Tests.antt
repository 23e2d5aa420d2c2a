-- ===== src/User/Tests.antt =====
-- Runs of the user demo, and the theorem on user_program.rs at such inputs.
use jing_os.Base.{ℕ, ◌+◌, ◌≡◌, refl, some, ok}
use jing_os.Syscall.Abi.{
  Context, SyscallRegisters, dispatch, encode_error, decode_response,
  handle_interrupt_from_registers,
}
use jing_os.Syscall.Entry.{interrupt_entry, invoke_via_interrupt}
use jing_os.User.Program.{run_user_demo, expected, run_user_demo_lem}

abbrev kernel : ℕ → Context
kernel i = record { ticks = 300 + i; pit_hz = 100; memory = some (1048576, 256) }

abbrev registers : ℕ → SyscallRegisters
registers i = record {
  rax = i;
  rbx = 1;
  rcx = 2;
  rdx = 3;
  rsi = 4;
  rdi = 5;
  rbp = 6;
  r8 = 7;
  r9 = 8;
  r10 = 9;
  r11 = 10;
  r12 = 11;
  r13 = 12;
  r14 = 13;
  r15 = 14;
}

demo_runs :
    run_user_demo kernel registers
    ≡ ok (record {
      ticks = 300;
      uptime_seconds = 3;
      sum = 42;
      usable_bytes = 1048576;
      usable_frames = 256;
    })
unfolding run_user_demo invoke_via_interrupt interrupt_entry handle_interrupt_from_registers
    dispatch encode_error decode_response
demo_runs = refl

run_user_demo_lem_example :
    run_user_demo kernel registers ≡ expected kernel (some (1048576, 256)) (some (1048576, 256))
run_user_demo_lem_example = run_user_demo_lem kernel registers
