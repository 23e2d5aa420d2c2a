-- ===== src/UserMode/Tests.antt =====
-- Runs of the user-mode code, and the theorems on usermode.rs at such inputs.
use jing_os.Base.{
  ℕ, suc, ◌%◌, ◌^◌, ◌≡◌, refl, ap, ◌∙◌, inl, inr, none, some, List, [], ◌∷◌, length, ◌==◌,
  if◌then◌else◌, arith, ok,
}
use jing_os.Syscall.Abi.{Context}
use jing_os.Memory.Region.{usable}
use jing_os.Memory.Frames.{init, region_frames, usable_frames, allocate_frame}
use jing_os.Memory.Inside.{IsMap}
use jing_os.Memory.Mapper.{State, read_bytes, to_le_bytes, from_le_bytes}
use jing_os.Memory.Mapping.{map_page_with_flags}
use jing_os.Memory.PageList.{mapper, mapper-IsMapper}
use jing_os.UserMode.Session.{
  Session, success_path, no_session, user_code_start, init_memory, run_fast_syscall_demo,
}
use jing_os.UserMode.Cpu.{
  mov_eax, mov_rdi, mov_rsi, mov_rdx, do_syscall, mov_r8_rax, mov_r9_r10, mov_r12_r10, mov_r10_rax,
  int, CpuState, continues, Cpu, executed, Holds, IsCpu,
}
use jing_os.UserMode.Demos.{user_context, demos_pass}
use jing_os.UserMode.Phases.{start, exit, take, calls, idle, in_phase, phases_refine}
use jing_os.UserMode.Setup.{init_memory_lem}

-- A processor for the instructions of the demos; at other bytes it stands still.
abbrev cpu : Cpu
cpu memory s =
    let b0 = memory s.rip in
    let b1 = memory (suc s.rip) in
    let b2 = memory (suc (suc s.rip)) in
    let imm32 = from_le_bytes (read_bytes memory (suc s.rip) 4) in
    let imm64 = from_le_bytes (read_bytes memory (suc (suc s.rip)) 8) in
    let long =
      if b1 == 0xBF
      then executed (mov_rdi imm64) s
      else (if b1 == 0xBE then executed (mov_rsi imm64) s else executed (mov_rdx imm64) s) in
    let low = if b2 == 0xC0 then executed mov_r8_rax s else executed mov_r10_rax s in
    let high = if b2 == 0xD1 then executed mov_r9_r10 s else executed mov_r12_r10 s in
    if b0 == 0xB8
    then executed (mov_eax imm32) s
    else (if b0 == 0x48
        then long
        else (if b0 == 0x0F
            then executed do_syscall s
            else (if b0 == 0x49
                then low
                else (if b0 == 0x4D
                    then high
                    else (if b0 == 0xCD then executed (int b1) s else (continues, s))))))

read_bytes_lem :
    (memory : ℕ → ℕ) (a : ℕ) (bs : List ℕ)
    → Holds memory a bs
    → read_bytes memory a (length bs) ≡ bs
read_bytes_lem memory a [] h = refl
read_bytes_lem memory a (b ∷ bs) (e, h) = rw (e, read_bytes_lem memory (suc a) bs h) refl

bytes32_lem : (v : ℕ) → from_le_bytes (to_le_bytes 4 v) % 2 ^ 32 ≡ v % 2 ^ 32
bytes32_lem v = omega arith

bytes64_lem : (v : ℕ) → from_le_bytes (to_le_bytes 8 v) % 2 ^ 64 ≡ v % 2 ^ 64
bytes64_lem v = omega arith

imm32_lem :
    (memory : ℕ → ℕ) (a v : ℕ)
    → Holds memory a (to_le_bytes 4 v)
    → from_le_bytes (read_bytes memory a 4) % 2 ^ 32 ≡ v % 2 ^ 32
imm32_lem memory a v h =
    ap (λ l. from_le_bytes l % 2 ^ 32) (read_bytes_lem memory a (to_le_bytes 4 v) h) ∙ bytes32_lem v

imm64_lem :
    (memory : ℕ → ℕ) (a v : ℕ)
    → Holds memory a (to_le_bytes 8 v)
    → from_le_bytes (read_bytes memory a 8) % 2 ^ 64 ≡ v % 2 ^ 64
imm64_lem memory a v h =
    ap (λ l. from_le_bytes l % 2 ^ 64) (read_bytes_lem memory a (to_le_bytes 8 v) h) ∙ bytes64_lem v

cpu-IsCpu : IsCpu cpu
cpu-IsCpu memory s (mov_eax v) (h, rest) = rw (h, imm32_lem memory (suc s.rip) v rest) refl
cpu-IsCpu memory s (mov_rdi v) (h, (h', rest)) =
    rw (h, h', imm64_lem memory (suc (suc s.rip)) v rest) refl
cpu-IsCpu memory s (mov_rsi v) (h, (h', rest)) =
    rw (h, h', imm64_lem memory (suc (suc s.rip)) v rest) refl
cpu-IsCpu memory s (mov_rdx v) (h, (h', rest)) =
    rw (h, h', imm64_lem memory (suc (suc s.rip)) v rest) refl
cpu-IsCpu memory s do_syscall (h, rest) = rw h refl
cpu-IsCpu memory s mov_r8_rax (h, (h', (h'', rest))) = rw (h, h'') refl
cpu-IsCpu memory s mov_r9_r10 (h, (h', (h'', rest))) = rw (h, h'') refl
cpu-IsCpu memory s mov_r12_r10 (h, (h', (h'', rest))) = rw (h, h'') refl
cpu-IsCpu memory s mov_r10_rax (h, (h', (h'', rest))) = rw (h, h'') refl
cpu-IsCpu memory s (int n) (h, (h', rest)) = rw (h, h') refl

abbrev context : Context
context = record { ticks = 250; pit_hz = 100; memory = none }

abbrev entered_state : CpuState
entered_state = record {
  regs = record {
    rax = 1;
    rbx = 2;
    rcx = 3;
    rdx = 4;
    rsi = 5;
    rdi = 6;
    rbp = 7;
    r8 = 8;
    r9 = 9;
    r10 = 10;
    r11 = 11;
    r12 = 12;
    r13 = 13;
    r14 = 14;
    r15 = 15;
  };
  rip = user_code_start;
  rflags = 0x202;
}

abbrev ready_session : Session
ready_session = record no_session { context = some user_context }

demos_pass_example : (run_fast_syscall_demo ready_session (λ a. 0)).0 ≡ ok user_context
demos_pass_example =
    (demos_pass cpu cpu-IsCpu (λ n. context) (λ a. 0) 0 ready_session entered_state refl refl).0.0

phases_refine_example :
    (calls
      (start [] (some success_path)
        ∷ exit entered_state.regs
        ∷ exit entered_state.regs
        ∷ take
        ∷ take
        ∷ [])
      (in_phase user_context (idle none), λ a. 0)).1.0
    ≡ in_phase user_context (idle none)
phases_refine_example =
    (phases_refine user_context
      (start [] (some success_path)
        ∷ exit entered_state.regs
        ∷ exit entered_state.regs
        ∷ take
        ∷ take
        ∷ [])
      (idle none) (λ a. 0)).1

abbrev state : State mapper
state = record {
  pages = [];
  allocator = init (record { start = 0x10_0000; end = 0x11_0000; kind = usable } ∷ []);
  memory = λ a. 0;
  heap = none;
}

regions-IsMap : IsMap state.allocator.memory_regions
regions-IsMap = ((refl, refl), tt, tt)

init_memory_lem_example : (init_memory mapper state no_session).2 ≡ ready_session
unfolding init_memory map_page_with_flags allocate_frame usable_frames region_frames
init_memory_lem_example =
    (init_memory_lem mapper mapper-IsMapper state no_session 0x6666_0000_9123 0x1000 regions-IsMap
      refl (inr refl)
      (elim [
        | inl e ↦ elim e [ inl f ↦ omega (arith, f) | inr f ↦ omega (arith, f) ]
        | inr e ↦ omega (arith, e)
      ])).0
