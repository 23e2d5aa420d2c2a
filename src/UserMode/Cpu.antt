-- ===== src/UserMode/Cpu.antt =====
-- A processor that runs user code, as far as the demos of kernel/src/usermode.rs rely on it: the instructions of
-- their code, and how it traps into the kernel. The kernel's side of a trap is its own.
use jing_os.Base.{
  ℕ, zero, suc, ◌+◌, ◌%◌, ◌^◌, ◌≡◌, Bool, true, false, Option, none, some, List, [], ◌∷◌, ◌==◌,
  if◌then◌else◌,
}
use jing_os.Syscall.Abi.{Context, SyscallRegisters}
use jing_os.Syscall.Entry.{interrupt_entry, fast_entry}
use jing_os.Memory.Mapper.{to_le_bytes}
use jing_os.UserMode.Builder.{usermode_exit_interrupt_vector}
use jing_os.UserMode.Session.{Session, handle_exit_interrupt_from_registers}

pub data Instruction : Type 0 where
  mov_eax mov_rdi mov_rsi mov_rdx : ℕ → Instruction
  do_syscall mov_r8_rax mov_r9_r10 mov_r12_r10 mov_r10_rax : Instruction
  int : ℕ → Instruction

abbrev pub encode : Instruction → List ℕ
encode (mov_eax v) = 0xB8 ∷ to_le_bytes 4 v
encode (mov_rdi v) = 0x48 ∷ 0xBF ∷ to_le_bytes 8 v
encode (mov_rsi v) = 0x48 ∷ 0xBE ∷ to_le_bytes 8 v
encode (mov_rdx v) = 0x48 ∷ 0xBA ∷ to_le_bytes 8 v
encode do_syscall = 0x0F ∷ 0x05 ∷ []
encode mov_r8_rax = 0x49 ∷ 0x89 ∷ 0xC0 ∷ []
encode mov_r9_r10 = 0x4D ∷ 0x89 ∷ 0xD1 ∷ []
encode mov_r12_r10 = 0x4D ∷ 0x89 ∷ 0xD4 ∷ []
encode mov_r10_rax = 0x49 ∷ 0x89 ∷ 0xC2 ∷ []
encode (int n) = 0xCD ∷ n ∷ []

pub record CpuState : Type 0 where
  pub regs : SyscallRegisters
  pub rip : ℕ
  pub rflags : ℕ

pub data Trap : Type 0 where
  continues syscalls : Trap
  interrupts : ℕ → Trap

-- What one instruction does, given the bytes of the memory.
abbrev pub Cpu : Type 0
Cpu = (ℕ → ℕ) → CpuState → Trap × CpuState

-- `syscall` puts the address behind it into `rcx` and the flags into `r11`.
abbrev pub executed : Instruction → CpuState → Trap × CpuState
executed (mov_eax v) s =
    (continues, record s { regs = record (s.regs) { rax = v % 2 ^ 32 }; rip = s.rip + 5 })
executed (mov_rdi v) s =
    (continues, record s { regs = record (s.regs) { rdi = v % 2 ^ 64 }; rip = s.rip + 10 })
executed (mov_rsi v) s =
    (continues, record s { regs = record (s.regs) { rsi = v % 2 ^ 64 }; rip = s.rip + 10 })
executed (mov_rdx v) s =
    (continues, record s { regs = record (s.regs) { rdx = v % 2 ^ 64 }; rip = s.rip + 10 })
executed do_syscall s = (
  syscalls,
  record s { regs = record (s.regs) { rcx = s.rip + 2; r11 = s.rflags }; rip = s.rip + 2 },
)
executed mov_r8_rax s =
    (continues, record s { regs = record (s.regs) { r8 = s.regs.rax }; rip = s.rip + 3 })
executed mov_r9_r10 s =
    (continues, record s { regs = record (s.regs) { r9 = s.regs.r10 }; rip = s.rip + 3 })
executed mov_r12_r10 s =
    (continues, record s { regs = record (s.regs) { r12 = s.regs.r10 }; rip = s.rip + 3 })
executed mov_r10_rax s =
    (continues, record s { regs = record (s.regs) { r10 = s.regs.rax }; rip = s.rip + 3 })
executed (int n) s = (interrupts n, record s { rip = s.rip + 2 })

-- The bytes stand in the memory from an address on.
abbrev pub Holds : (ℕ → ℕ) → ℕ → List ℕ → Type 0
Holds memory a [] = Unit {0}
Holds memory a (b ∷ bs) = (memory a ≡ b) × Holds memory (suc a) bs

-- A processor that does these instructions as its manual says.
abbrev pub IsCpu : Cpu → Type 0
IsCpu cpu =
    (memory : ℕ → ℕ) (s : CpuState) (i : Instruction)
    → Holds memory s.rip (encode i)
    → cpu memory s ≡ executed i s

-- `sysretq`: back to `rcx`, with the flags of `r11`.
abbrev pub sysret : SyscallRegisters → CpuState
sysret r = record { regs = r; rip = r.rcx; rflags = r.r11 }

-- The end of the handler of `int 0x81`: the monitor resumes, or the program goes on.
abbrev pub exit_or : (Session → Option Session) → Bool × Session → Option Session
exit_or k (true, u) = some u
exit_or k (false, u) = k u

-- The kernel's part of a step, and the rest of the program.
abbrev pub handle :
    Context → Session → (Session → CpuState → Option Session) → Trap × CpuState → Option Session
handle c u k (continues, s) = k u s
handle c u k (syscalls, s) = k u (sysret (fast_entry c s.regs))
handle c u k (interrupts n, s) =
    if n == 0x80
    then k u (record s { regs = interrupt_entry c s.regs })
    else (if n == usermode_exit_interrupt_vector
        then exit_or (λ u'. k u' s) (handle_exit_interrupt_from_registers s.regs u)
        else none)

-- The program from a state on: the statics when the monitor resumes, `none` if it does not within the
-- number of steps. A system call with `n` steps left finds the kernel as `c n`.
unfoldable pub run_user : Cpu → (ℕ → Context) → (ℕ → ℕ) → ℕ → Session → CpuState → Option Session
run_user cpu c memory zero u s = none
run_user cpu c memory (suc n) u s = handle (c n) u (run_user cpu c memory n) (cpu memory s)
