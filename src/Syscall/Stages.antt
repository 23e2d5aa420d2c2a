-- ===== src/Syscall/Stages.antt =====
-- kernel/src/syscall.rs: what the published stage of the fast path means.
use jing_os.Base.{◌*◌, ◌/◌, ◌+◌, ◌%◌, ◌<◌, ◌≤◌, ◌≡◌, true, false, none, some}
use jing_os.Syscall.Fast.{
  Selectors, FastSyscallStage, uninitialized, unsupported_cpu, scaffolded, msr_programmed_no_sce,
  sce_enabled_experimental, FastSyscallStatus, Machine, Msrs, cpu_supports_syscall, stack_top,
}

-- What stands in the registers and in the CPU-local block after a set-up. SFMASK has the bits 8, 9 and 10,
-- of the trap, the interrupt and the direction flag.
pub record Programmed (m : Machine) (s : Selectors) (after : Msrs) : Type 0 where
  pub star : after.star ≡ some s
  pub lstar : after.lstar ≡ some m.entry_address
  pub sfmask : after.sfmask ≡ some 0x700
  pub gs_base : after.kernel_gs_base ≡ some m.cpu_local_address
  pub aligned : after.kernel_rsp % 16 ≡ 0
  pub above : m.stack_start < after.kernel_rsp
  pub below : after.kernel_rsp ≤ m.stack_start + 4096 * 4
  pub no_user_rsp : after.user_rsp ≡ 0

-- What each published stage says of the processor and of the registers.
abbrev pub Meaning :
    FastSyscallStage → Machine → Selectors → FastSyscallStatus → Msrs → Msrs → Type 0
Meaning uninitialized m s status before after = ⊥
Meaning unsupported_cpu m s status before after =
    (cpu_supports_syscall m ≡ false) × (status.lstar ≡ none) × (after ≡ before)
Meaning scaffolded m s status before after =
    (cpu_supports_syscall m ≡ true)
    × (m.accepts_star s ≡ false)
    × (status.lstar ≡ none)
    × (after ≡ before)
Meaning msr_programmed_no_sce m s status before after =
    (after.sce ≡ false)
    × Programmed m s after
    × (status.lstar ≡ after.lstar)
    × (status.kernel_gs_base ≡ after.kernel_gs_base)
Meaning sce_enabled_experimental m s status before after =
    (0x8000_0001 ≤ m.max_extended_leaf)
    × ((m.extended_edx / 2048) % 2 ≡ 1)
    × (after.sce ≡ true)
    × Programmed m s after
    × (status.lstar ≡ after.lstar)
    × (status.kernel_gs_base ≡ after.kernel_gs_base)

abbrev programmed : Machine → Selectors → Msrs → Msrs
programmed m s r = record r {
  star = some s;
  lstar = some m.entry_address;
  sfmask = some 0x700;
  kernel_gs_base = some m.cpu_local_address;
  kernel_rsp = stack_top m;
  user_rsp = 0;
}
