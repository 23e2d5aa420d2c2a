-- ===== src/Syscall/Entry.antt =====
-- kernel/src/interrupts.rs and kernel/src/syscall.rs: the two ways into the dispatcher. A stub pushes
-- the registers, hands the stack to the handler as a `SyscallRegisters`, and pops them again. A stack
-- is its words, the top first.
use jing_os.Base.{ℕ, List, [], ◌∷◌, Result}
use jing_os.Syscall.Abi.{
  Context, SyscallRegisters, SyscallError, handle_interrupt_from_registers, decode_response,
}

-- The pushes of a stub, from `push r15` to `push rax`.
abbrev pub push_all : SyscallRegisters → List ℕ → List ℕ
push_all r stack =
    r.rax ∷ r.rbx ∷ r.rcx ∷ r.rdx ∷ r.rsi ∷ r.rdi ∷ r.rbp ∷ r.r8 ∷ r.r9 ∷ r.r10 ∷ r.r11 ∷ r.r12
    ∷ r.r13 ∷ r.r14 ∷ r.r15 ∷ stack

-- The pops of a stub, from `pop rax` to `pop r15`: the registers and the stack after them. A shorter
-- stack leaves the registers as they are.
abbrev pub pop_all : List ℕ → SyscallRegisters → SyscallRegisters × List ℕ
pop_all
      (rax ∷ rbx ∷ rcx ∷ rdx ∷ rsi ∷ rdi ∷ rbp ∷ r8 ∷ r9 ∷ r10 ∷ r11 ∷ r12 ∷ r13 ∷ r14 ∷ r15
        ∷ stack)
      before =
    (
      record {
        rax = rax;
        rbx = rbx;
        rcx = rcx;
        rdx = rdx;
        rsi = rsi;
        rdi = rdi;
        rbp = rbp;
        r8 = r8;
        r9 = r9;
        r10 = r10;
        r11 = r11;
        r12 = r12;
        r13 = r13;
        r14 = r14;
        r15 = r15;
      },
      stack,
    )
pop_all stack before = (before, stack)

-- The call of the handler, which reads and writes the words on the top of the stack by the layout of
-- `SyscallRegisters`.
abbrev pub call_dispatch : Context → List ℕ → SyscallRegisters → List ℕ
call_dispatch c stack before =
    let (r, below) = pop_all stack before in push_all (handle_interrupt_from_registers c r) below

-- `jingos_syscall_interrupt_entry`: the registers after `int 0x80`.
unfoldable pub interrupt_entry : Context → SyscallRegisters → SyscallRegisters
interrupt_entry c r = (pop_all (call_dispatch c (push_all r []) r) r).0

-- The caller's side of `int 0x80`: `rax`, `rdi`, `rsi` and `rdx` are loaded, the others are as they
-- happen to be, and `rax` and `rcx` are read afterwards.
unfoldable pub invoke_via_interrupt :
    Context → SyscallRegisters → ℕ → ℕ → ℕ → ℕ → Result ℕ SyscallError
invoke_via_interrupt c before number arg0 arg1 arg2 =
    let r =
      interrupt_entry c (record before { rax = number; rdi = arg0; rsi = arg1; rdx = arg2 }) in
    decode_response r.rcx r.rax

-- The end of `jingos_fast_syscall_entry`: the status goes from `rcx` to `r10`, and `rcx` and `r11` are
-- popped for `sysretq`.
abbrev pub return_fast : SyscallRegisters × List ℕ → SyscallRegisters
return_fast (r, rcx ∷ r11 ∷ stack) = record r { r10 = r.rcx; rcx = rcx; r11 = r11 }
return_fast (r, stack) = r

-- `jingos_fast_syscall_entry`: the registers after `syscall`, which has put the return address into
-- `rcx` and the flags into `r11`. Both are pushed once more, below the others.
unfoldable pub fast_entry : Context → SyscallRegisters → SyscallRegisters
fast_entry c r = return_fast (pop_all (call_dispatch c (push_all r (r.rcx ∷ r.r11 ∷ [])) r) r)
