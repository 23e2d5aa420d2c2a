-- ===== src/UserMode/Demos.antt =====
-- kernel/src/usermode.rs: the three demos, from their start in the monitor to its resumption.
use jing_os.Base.{
  ℕ, ◌+◌, ◌≡◌, ◌∙◌, arith, refl, ap, true, false, Option, none, some, List, [], ◌∷◌, ◌++◌, ok, suc,
  replicate, length, u64_max,
}
use jing_os.Syscall.Abi.{Context, dispatch, encode_error, handle_interrupt_from_registers}
use jing_os.Syscall.Entry.{fast_entry}
use jing_os.Memory.Mapper.{write_bytes}
use jing_os.UserMode.Builder.{
  emit_fast_syscall_capture_slot0, emit_fast_syscall_capture_slot1, build_fast_syscall_success_code,
  build_fast_syscall_error_code,
}
use jing_os.UserMode.Session.{
  UserModeContext, FastSyscallDemoKind, success_path, error_path, FastSyscallDemoReport, passed,
  Session, Started, start_in, report_of, user_code_start, user_stack_top, write_demo_code,
  run_demo_code, run_demo, run_fast_syscall_demo, run_fast_syscall_error_demo,
  take_last_fast_syscall_report,
}
use jing_os.UserMode.Cpu.{
  Instruction, mov_eax, mov_rdi, mov_rsi, mov_rdx, do_syscall, mov_r8_rax, mov_r9_r10, mov_r12_r10,
  mov_r10_rax, int, encode, CpuState, Cpu, Holds, IsCpu, run_user,
}
use jing_os.UserMode.Runs.{encode_all, AllStraight, executed_all, write_bytes-Holds, run_exit}

-- The instructions of the two fast demos before `int 0x81`.
abbrev fast_program : ℕ → ℕ → ℕ → List Instruction
fast_program number0 a b =
    mov_eax number0
    ∷ mov_rdi 0
    ∷ mov_rsi 0
    ∷ mov_rdx 0
    ∷ do_syscall
    ∷ mov_r8_rax
    ∷ mov_r9_r10
    ∷ mov_eax 2
    ∷ mov_rdi a
    ∷ mov_rsi b
    ∷ mov_rdx 0
    ∷ do_syscall
    ∷ mov_r12_r10
    ∷ mov_r10_rax
    ∷ []

abbrev int_program : List Instruction
int_program = mov_eax 0 ∷ int 0x80 ∷ []

-- With the end that every demo has.
abbrev text : List Instruction → List ℕ
text is = encode_all is ++ (encode (int 0x81) ++ (0xEB ∷ 0xFE ∷ []))

pub success_code_lem :
    (u : Session) (memory : ℕ → ℕ)
    → run_fast_syscall_demo u memory
      ≡ run_demo_code (text (fast_program 0 40 2)) (some success_path) u memory
unfolding run_fast_syscall_demo build_fast_syscall_success_code emit_fast_syscall_capture_slot0
    emit_fast_syscall_capture_slot1
success_code_lem u memory = refl

pub error_code_lem :
    (u : Session) (memory : ℕ → ℕ)
    → run_fast_syscall_error_demo u memory
      ≡ run_demo_code (text (fast_program 0xFFFF_FF00 u64_max 1)) (some error_path) u memory
unfolding run_fast_syscall_error_demo build_fast_syscall_error_code emit_fast_syscall_capture_slot0
    emit_fast_syscall_capture_slot1
error_code_lem u memory = refl

pub int_code_lem :
    (u : Session) (memory : ℕ → ℕ)
    → run_demo u memory ≡ run_demo_code (text int_program) none u memory
unfolding run_demo
int_code_lem u memory = refl

-- The context that `init_memory` sets.
abbrev pub user_context : UserModeContext
user_context = record { entry = user_code_start; stack_top = user_stack_top }

abbrev pub behind : Session → Option FastSyscallDemoReport → Session
behind u report = record u { last_report = report; pending_kind = none; exit_expected = false }

pub demo_text-Holds :
    (code : List ℕ) (memory : ℕ → ℕ) → Holds (write_demo_code code memory) user_code_start code
unfolding write_demo_code
demo_text-Holds code memory =
    write_bytes-Holds (write_bytes memory user_code_start (replicate 4096 0x90)) user_code_start
      code

context_lem :
    (code : List ℕ) (kind : Option FastSyscallDemoKind) (u : Session) (memory : ℕ → ℕ)
    → u.context ≡ some user_context
    → run_demo_code code kind u memory ≡ start_in (some user_context) code kind u memory
unfolding run_demo_code
context_lem code kind u memory x = ap (λ o. start_in o code kind u memory) x

demo_runs :
    (cpu : Cpu) (law : IsCpu cpu) (c : ℕ → Context) (memory : ℕ → ℕ) (n : ℕ) (u : Session)
    (s : CpuState) (is : List Instruction) (kind : Option FastSyscallDemoKind)
    → s.rip ≡ user_code_start
    → AllStraight is
    → run_user cpu c
        (write_demo_code (text is) memory)
        (length is + suc n)
        (record u { pending_kind = kind; last_report = none; exit_expected = true })
        s
      ≡ some (behind u (report_of kind (executed_all c (suc n) is s).regs))
demo_runs cpu law c memory n u s is kind at a =
    let holds : Holds (write_demo_code (text is) memory) s.rip (text is) =
      rw at (demo_text-Holds (text is) memory) in
    run_exit cpu law c (write_demo_code (text is) memory) n
      (record u { pending_kind = kind; last_report = none; exit_expected = true }) is
      (0xEB ∷ 0xFE ∷ []) s a refl holds

-- The monitor resumes, and finds a report of that kind which passes.
abbrev pub ReportPasses : FastSyscallDemoKind → Option Session → Type 0
ReportPasses kind none = ⊥
ReportPasses kind (some u) = elim (take_last_fast_syscall_report u).0 [
  | none ↦ ⊥
  | some r ↦ (r.kind ≡ kind) × (passed r ≡ true)
]

-- The demo starts user mode at its code, and what follows of the program and the kernel ends as said.
abbrev pub Demo : Cpu → (ℕ → Context) → ℕ → CpuState → (Option Session → Type 0) → Started → Type 0
Demo cpu c fuel s End (r, u, memory) = (r ≡ ok user_context) × End (run_user cpu c memory fuel u s)

fast_straight : (number0 a b : ℕ) → AllStraight (fast_program number0 a b)
fast_straight number0 a b = (
  refl,
  (
    refl,
    (
      refl,
      (refl, (refl, (refl, (refl, (refl, (refl, (refl, (refl, (refl, (refl, (refl, tt))))))))))),
    ),
  ),
)

demo_lem :
    (cpu : Cpu) (law : IsCpu cpu) (c : ℕ → Context) (memory : ℕ → ℕ) (n fuel : ℕ) (u : Session)
    (s : CpuState) (is : List Instruction) (kind : Option FastSyscallDemoKind)
    (End : Option Session → Type 0) (started : Started)
    → started ≡ start_in (some user_context) (text is) kind u memory
    → fuel ≡ length is + suc n
    → s.rip ≡ user_code_start
    → AllStraight is
    → End (some (behind u (report_of kind (executed_all c (suc n) is s).regs)))
    → Demo cpu c fuel s End started
demo_lem cpu law c memory n fuel u s is kind End started e f at a h =
    let u' = record u { pending_kind = kind; last_report = none; exit_expected = true } in
    let ends : End (run_user cpu c (write_demo_code (text is) memory) (length is + suc n) u' s) =
      rw (demo_runs cpu law c memory n u s is kind at a) h in
    rw (e, f) (refl, ends)

-- On a processor that does the instructions of the demos as its manual says, with `syscall` enabled, and
-- once user mode is set up: each demo enters user mode; run from its entry, whatever the other registers hold and at
-- whatever times the calls find the kernel, its code comes to `int 0x81` within fifteen steps, and
-- the monitor resumes. It finds a report of the demo's kind that passes after the two fast demos, and
-- none after the other one.
pub demos_pass :
    (cpu : Cpu) (law : IsCpu cpu) (c : ℕ → Context) (memory : ℕ → ℕ) (n : ℕ) (u : Session)
    (s : CpuState)
    → u.context ≡ some user_context
    → s.rip ≡ user_code_start
    → Demo cpu c (15 + n) s (ReportPasses success_path) (run_fast_syscall_demo u memory)
      × Demo cpu c (15 + n) s (ReportPasses error_path) (run_fast_syscall_error_demo u memory)
      × Demo cpu c (3 + n) s (λ o. o ≡ some (behind u none)) (run_demo u memory)
unfolding take_last_fast_syscall_report passed fast_entry handle_interrupt_from_registers dispatch
    encode_error
demos_pass cpu law c memory n u s x at =
    let success = fast_program 0 40 2 in
    let error = fast_program 0xFFFF_FF00 u64_max 1 in
    (
      demo_lem cpu law c memory n (15 + n) u s success (some success_path)
          (ReportPasses success_path) (run_fast_syscall_demo u memory)
          (success_code_lem u memory ∙ context_lem (text success) (some success_path) u memory x)
          (omega arith) at (fast_straight 0 40 2) (refl, refl),
      demo_lem cpu law c memory n (15 + n) u s error (some error_path) (ReportPasses error_path)
          (run_fast_syscall_error_demo u memory)
          (error_code_lem u memory ∙ context_lem (text error) (some error_path) u memory x)
          (omega arith) at (fast_straight 0xFFFF_FF00 u64_max 1) (refl, refl),
      demo_lem cpu law c memory n (3 + n) u s int_program none (λ o. o ≡ some (behind u none))
          (run_demo u memory)
          (int_code_lem u memory ∙ context_lem (text int_program) none u memory x) (omega arith) at
          (refl, (refl, tt)) refl,
    )
