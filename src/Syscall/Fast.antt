-- ===== src/Syscall/Fast.antt =====
-- kernel/src/syscall.rs: `cpu_supports_syscall`, `program_fast_syscall_msrs` and
-- `init_fast_syscall_scaffold`. The processor is a parameter: what `cpuid` answers, whether
-- `Star::write` accepts the selectors, and what EFER.SCE reads as after it was written.
use jing_os.Base.{
  ℕ, ◌+◌, ◌*◌, ◌/◌, ◌%◌, ◌^◌, Bool, true, false, Option, none, some, ltb, ◌==◌, if◌then◌else◌,
  Result, ok, err,
}

pub record Selectors : Type 0 where
  pub kernel_code_selector : ℕ
  pub kernel_data_selector : ℕ
  pub user_code_selector : ℕ
  pub user_data_selector : ℕ
  pub tss_selector : ℕ

pub data FastSyscallStage : Type 0 where
  uninitialized unsupported_cpu scaffolded msr_programmed_no_sce sce_enabled_experimental :
      FastSyscallStage

pub record FastSyscallSelectorPlan : Type 0 where
  pub kernel_cs : ℕ
  pub kernel_ss : ℕ
  pub user_cs : ℕ
  pub user_ss : ℕ

-- The notes: "not initialized", "cpu does not report SYSCALL/SYSRET support", "STAR selector layout
-- rejected by x86_64 crate", "SCE enabled (experimental); …", "STAR/LSTAR/SFMASK programmed; …".
pub data Note : Type 0 where
  not_initialized no_support star_rejected sce_enabled_note sce_not_enabled_note : Note

pub record FastSyscallStatus : Type 0 where
  pub stage : FastSyscallStage
  pub cpu_support : Bool
  pub sce_enabled : Bool
  pub selectors : Option FastSyscallSelectorPlan
  pub lstar : Option ℕ
  pub kernel_gs_base : Option ℕ
  pub note : Note

abbrev pub default_status : FastSyscallStatus
default_status = record {
  stage = uninitialized;
  cpu_support = false;
  sce_enabled = false;
  selectors = none;
  lstar = none;
  kernel_gs_base = none;
  note = not_initialized;
}

-- The processor, and where the linker put the entry stub, the stack and the CPU-local block.
pub record Machine : Type 0 where
  pub max_extended_leaf : ℕ
  pub extended_edx : ℕ
  pub accepts_star : Selectors → Bool
  pub sce_after_write : Bool
  pub entry_address : ℕ
  pub stack_start : ℕ
  pub cpu_local_address : ℕ

-- The registers and the block that the set-up writes; `none` is "not written by it".
pub record Msrs : Type 0 where
  pub sce : Bool
  pub star : Option Selectors
  pub lstar : Option ℕ
  pub sfmask : Option ℕ
  pub kernel_gs_base : Option ℕ
  pub kernel_rsp : ℕ
  pub user_rsp : ℕ

abbrev pub fast_syscall_stack_size : ℕ
fast_syscall_stack_size = 4096 * 4

abbrev pub enable_fast_syscall_sce : Bool
enable_fast_syscall_sce = true

-- `edx & (1 << 11) != 0`.
abbrev pub bit_11 : ℕ → Bool
bit_11 edx = (edx / 2 ^ 11) % 2 == 1

unfoldable pub cpu_supports_syscall : Machine → Bool
cpu_supports_syscall m =
    if ltb m.max_extended_leaf 0x8000_0001 then false else bit_11 m.extended_edx

abbrev pub plan_of : Selectors → FastSyscallSelectorPlan
plan_of s = record {
  kernel_cs = s.kernel_code_selector;
  kernel_ss = s.kernel_data_selector;
  user_cs = s.user_code_selector;
  user_ss = s.user_data_selector;
}

-- `RFlags::INTERRUPT_FLAG`, `TRAP_FLAG` and `DIRECTION_FLAG`, the bits 9, 8 and 10.
abbrev pub interrupt_flag : ℕ
interrupt_flag = 2 ^ 9

abbrev pub trap_flag : ℕ
trap_flag = 2 ^ 8

abbrev pub direction_flag : ℕ
direction_flag = 2 ^ 10

-- `(stack_start + FAST_SYSCALL_STACK_SIZE) & !0xf`.
abbrev pub stack_top : Machine → ℕ
stack_top m = (m.stack_start + fast_syscall_stack_size) / 16 * 16

unfoldable pub program_fast_syscall_msrs :
    Machine → Selectors → Msrs → Result (FastSyscallSelectorPlan × ℕ × ℕ) Note × Msrs
program_fast_syscall_msrs m s r =
    if m.accepts_star s
    then (
      ok (plan_of s, m.entry_address, m.cpu_local_address),
      record r {
        star = some s;
        lstar = some m.entry_address;
        sfmask = some (interrupt_flag + trap_flag + direction_flag);
        kernel_gs_base = some m.cpu_local_address;
        kernel_rsp = stack_top m;
        user_rsp = 0;
      },
    )
    else (err star_rejected, r)

-- The part of `init_fast_syscall_scaffold` behind a successful set-up: EFER is written and read back,
-- and the status published.
abbrev pub publish : Bool → FastSyscallSelectorPlan × ℕ × ℕ → Msrs → FastSyscallStatus × Msrs
publish sce_after (plan, lstar, kernel_gs_base) r = (
  record {
    stage = if sce_after then sce_enabled_experimental else msr_programmed_no_sce;
    cpu_support = true;
    sce_enabled = sce_after;
    selectors = some plan;
    lstar = some lstar;
    kernel_gs_base = some kernel_gs_base;
    note = if sce_after then sce_enabled_note else sce_not_enabled_note;
  },
  record r { sce = sce_after },
)

-- The part of `init_fast_syscall_scaffold` behind the set-up, by its result.
abbrev pub settle :
    Machine
    → Selectors
    → Bool
    → Result (FastSyscallSelectorPlan × ℕ × ℕ) Note × Msrs
    → FastSyscallStatus × Msrs
settle m s sce (err note, after) = (
  record default_status {
    stage = scaffolded;
    cpu_support = true;
    sce_enabled = sce;
    selectors = some (plan_of s);
    note = note;
  },
  after,
)
settle m s sce (ok values, after) =
    publish (if enable_fast_syscall_sce then m.sce_after_write else sce) values after

unfoldable pub init_fast_syscall_scaffold : Machine → Selectors → Msrs → FastSyscallStatus × Msrs
init_fast_syscall_scaffold m s r =
    if cpu_supports_syscall m then settle m s r.sce (program_fast_syscall_msrs m s r) else (
      record default_status { stage = unsupported_cpu; sce_enabled = r.sce; note = no_support },
      r,
    )
