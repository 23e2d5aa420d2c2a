-- ===== src/Syscall/Tests.antt =====
-- Runs of the system calls, and the theorems on syscall.rs at such inputs.
use jing_os.Base.{◌≡◌, refl, true, false, none, some, arith, ok, err}
use jing_os.Syscall.Abi.{
  Context, SyscallRegisters, dispatch, encode_error, decode_response,
  handle_interrupt_from_registers, unknown_number,
}
use jing_os.Syscall.Entry.{interrupt_entry, invoke_via_interrupt, fast_entry}
use jing_os.Syscall.Fast.{Machine, Selectors, Msrs}
use jing_os.Syscall.Laws.{invoke-dispatch, fast_entry_lem, dispatch_cases}

abbrev context : Context
context = record { ticks = 250; pit_hz = 100; memory = some (1048576, 256) }

-- The registers of a program that asks for 40 + 2.
abbrev registers : SyscallRegisters
registers = record {
  rax = 2;
  rbx = 11;
  rcx = 0x4010;
  rdx = 0;
  rsi = 2;
  rdi = 40;
  rbp = 12;
  r8 = 1;
  r9 = 2;
  r10 = 3;
  r11 = 0x202;
  r12 = 4;
  r13 = 5;
  r14 = 6;
  r15 = 7;
}

add_runs : invoke_via_interrupt context registers 2 40 2 0 ≡ ok 42
unfolding invoke_via_interrupt interrupt_entry handle_interrupt_from_registers dispatch
    decode_response encode_error
add_runs = refl

uptime_runs : dispatch context 1 0 0 0 ≡ ok 2
unfolding dispatch
uptime_runs = refl

invoke-dispatch_example : invoke_via_interrupt context registers 9 1 2 3 ≡ dispatch context 9 1 2 3
invoke-dispatch_example = invoke-dispatch context registers 9 1 2 3

fast_entry_lem_example :
    decode_response (fast_entry context registers).r10 (fast_entry context registers).rax
    ≡ dispatch context 2 40 2 0
fast_entry_lem_example = (fast_entry_lem context registers).0

dispatch_cases_example : dispatch context 7 0 0 0 ≡ err (unknown_number 7)
dispatch_cases_example = (dispatch_cases context 7 0 0 0).0.1 (omega arith)

abbrev selectors : Selectors
selectors = record {
  kernel_code_selector = 8;
  kernel_data_selector = 16;
  user_code_selector = 35;
  user_data_selector = 27;
  tss_selector = 40;
}

abbrev machine : Machine
machine = record {
  max_extended_leaf = 0x8000_0008;
  extended_edx = 0x2c10_0800;
  accepts_star = λ s. true;
  sce_after_write = true;
  entry_address = 0x10_0000;
  stack_start = 0x20_0008;
  cpu_local_address = 0x30_0000;
}

abbrev msrs : Msrs
msrs = record {
  sce = false;
  star = none;
  lstar = none;
  sfmask = none;
  kernel_gs_base = none;
  kernel_rsp = 0;
  user_rsp = 0;
}
