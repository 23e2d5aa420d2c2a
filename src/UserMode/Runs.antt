-- ===== src/UserMode/Runs.antt =====
-- kernel/src/usermode.rs: a program that stands in the memory is run instruction by instruction.
use jing_os.Base.{
  append_assoc, ℕ, suc, ◌+◌, ◌<◌, ◌≡◌, refl, sym, ap, ◌∙◌, Bool, true, false, Option, none, some,
  List, [], ◌∷◌, ◌++◌, length, ◌==◌, arith,
}
use jing_os.Syscall.Abi.{Context}
use jing_os.Syscall.Entry.{interrupt_entry, fast_entry}
use jing_os.Syscall.Laws.{fast_entry_lem}
use jing_os.Memory.Mapper.{write_byte, write_bytes}
use jing_os.UserMode.Session.{Session, report_of, handle_exit_interrupt_from_registers}
use jing_os.UserMode.Cpu.{
  Instruction, mov_eax, mov_rdi, mov_rsi, mov_rdx, do_syscall, mov_r8_rax, mov_r9_r10, mov_r12_r10,
  mov_r10_rax, int, encode, CpuState, Trap, continues, syscalls, interrupts, Cpu, executed, Holds,
  IsCpu, sysret, handle, run_user,
}

write_bytes_below :
    (memory : ℕ → ℕ) (a x : ℕ) (bs : List ℕ) → x < a → write_bytes memory a bs x ≡ memory x
write_bytes_below memory a x [] h = refl
write_bytes_below memory a x (b ∷ bs) h =
    let e : (x == a) ≡ false = ground (arith, h) in
    write_bytes_below (write_byte memory a b) (suc a) x bs (omega (arith, h)) ∙ rw e refl

-- What was written stands in the memory.
pub write_bytes-Holds :
    (memory : ℕ → ℕ) (a : ℕ) (bs : List ℕ) → Holds (write_bytes memory a bs) a bs
write_bytes-Holds memory a [] = tt
write_bytes-Holds memory a (b ∷ bs) =
    let e : (a == a) ≡ true = ground arith in
    (
      write_bytes_below (write_byte memory a b) (suc a) a bs (omega arith) ∙ rw e refl,
      write_bytes-Holds (write_byte memory a b) (suc a) bs,
    )

Holds-append :
    (memory : ℕ → ℕ) (a : ℕ) (xs ys : List ℕ)
    → Holds memory a (xs ++ ys)
    → Holds memory a xs × Holds memory (a + length xs) ys
Holds-append memory a [] ys h = let e : a + 0 ≡ a = omega arith in (tt, rw e h)
Holds-append memory a (x ∷ xs) ys (h, rest) =
    let (first, second) = Holds-append memory (suc a) xs ys rest in
    let e : a + suc (length xs) ≡ suc a + length xs = omega arith in ((h, first), rw e second)

-- An instruction behind which the program goes on.
abbrev pub is_straight : Instruction → Bool
is_straight (int n) = n == 0x80
is_straight _ = true

abbrev pub resumed : Context → Trap × CpuState → CpuState
resumed c (continues, s) = s
resumed c (syscalls, s) = sysret (fast_entry c s.regs)
resumed c (interrupts n, s) = record s { regs = interrupt_entry c s.regs }

handle_lem :
    (c : Context) (u : Session) (k : Session → CpuState → Option Session) (i : Instruction)
    (s : CpuState)
    → is_straight i ≡ true
    → handle c u k (executed i s) ≡ k u (resumed c (executed i s))
handle_lem c u k (mov_eax v) s e = refl
handle_lem c u k (mov_rdi v) s e = refl
handle_lem c u k (mov_rsi v) s e = refl
handle_lem c u k (mov_rdx v) s e = refl
handle_lem c u k do_syscall s e = refl
handle_lem c u k mov_r8_rax s e = refl
handle_lem c u k mov_r9_r10 s e = refl
handle_lem c u k mov_r12_r10 s e = refl
handle_lem c u k mov_r10_rax s e = refl
handle_lem c u k (int n) s e = rw e refl

rip_lem :
    (c : Context) (i : Instruction) (s : CpuState)
    → is_straight i ≡ true
    → (resumed c (executed i s)).rip ≡ s.rip + length (encode i)
rip_lem c (mov_eax v) s e = refl
rip_lem c (mov_rdi v) s e = refl
rip_lem c (mov_rsi v) s e = refl
rip_lem c (mov_rdx v) s e = refl
rip_lem c do_syscall s e =
    ap (λ r. r.rcx) (fast_entry_lem c (record (s.regs) { rcx = s.rip + 2; r11 = s.rflags })).1
rip_lem c mov_r8_rax s e = refl
rip_lem c mov_r9_r10 s e = refl
rip_lem c mov_r12_r10 s e = refl
rip_lem c mov_r10_rax s e = refl
rip_lem c (int n) s e = refl

abbrev pub encode_all : List Instruction → List ℕ
encode_all [] = []
encode_all (i ∷ is) = encode i ++ encode_all is

abbrev pub AllStraight : List Instruction → Type 0
AllStraight [] = Unit {0}
AllStraight (i ∷ is) = (is_straight i ≡ true) × AllStraight is

-- The state behind a program that leaves `n` steps.
abbrev pub executed_all : (ℕ → Context) → ℕ → List Instruction → CpuState → CpuState
executed_all c n [] s = s
executed_all c n (i ∷ is) s = executed_all c n is (resumed (c (length is + n)) (executed i s))

module _ (cpu : Cpu) (law : IsCpu cpu) (c : ℕ → Context) (memory : ℕ → ℕ) (n : ℕ)
    (u : Session) where
  pub run_all :
      (is : List Instruction) (rest : List ℕ) (s : CpuState)
      → AllStraight is
      → Holds memory s.rip (encode_all is ++ rest)
      → (run_user cpu c memory (length is + n) u s
          ≡ run_user cpu c memory n u (executed_all c n is s))
        × Holds memory (executed_all c n is s).rip rest
  unfolding run_user
  run_all [] rest s a h = (let e : 0 + n ≡ n = omega arith in rw e refl, h)
  run_all (i ∷ is) rest s (a, all) h =
      let m = length is + n in
      let s' = resumed (c m) (executed i s) in
      let h' : Holds memory s.rip (encode i ++ (encode_all is ++ rest)) =
        rw (sym (append_assoc (encode i) (encode_all is) rest)) h in
      let (first, second) = Holds-append memory s.rip (encode i) (encode_all is ++ rest) h' in
      let (runs, holds) = run_all is rest s' all (rw (rip_lem (c m) i s a) second) in
      let e : suc (length is) + n ≡ suc m = omega arith in
      (
        rw (e, law memory s i first) (handle_lem (c m) u (run_user cpu c memory m) i s a ∙ runs),
        holds,
      )

exit_lem :
    (c : Context) (u : Session) (k : Session → CpuState → Option Session) (s : CpuState)
    → u.exit_expected ≡ true
    → handle c u k (executed (int 0x81) s)
      ≡ some (record u {
        exit_expected = false;
        pending_kind = none;
        last_report = report_of u.pending_kind s.regs;
      })
unfolding handle_exit_interrupt_from_registers
exit_lem c u k s e = rw e refl

-- A program that ends with `int 0x81`.
pub run_exit :
    (cpu : Cpu) (law : IsCpu cpu) (c : ℕ → Context) (memory : ℕ → ℕ) (n : ℕ) (u : Session)
    (is : List Instruction) (rest : List ℕ) (s : CpuState)
    → AllStraight is
    → u.exit_expected ≡ true
    → Holds memory s.rip (encode_all is ++ (encode (int 0x81) ++ rest))
    → run_user cpu c memory (length is + suc n) u s
      ≡ some (record u {
        exit_expected = false;
        pending_kind = none;
        last_report = report_of u.pending_kind (executed_all c (suc n) is s).regs;
      })
unfolding run_user
run_exit cpu law c memory n u is rest s a x h =
    let (runs, holds) = run_all cpu law c memory (suc n) u is (encode (int 0x81) ++ rest) s a h in
    let s' = executed_all c (suc n) is s in
    let (first, second) = Holds-append memory s'.rip (encode (int 0x81)) rest holds in
    runs ∙ rw (law memory s' (int 0x81) first) (exit_lem (c n) u (run_user cpu c memory n) s' x)
