-- ===== src/UserMode/Phases.antt =====
-- kernel/src/usermode.rs: the statics of a session as a state machine of two phases.
use jing_os.Base.{ℕ, ◌≡◌, refl, Bool, true, false, Option, none, some, List, [], ◌∷◌, ok, err}
use jing_os.Syscall.Abi.{SyscallRegisters}
use jing_os.UserMode.Session.{
  UserModeContext, FastSyscallDemoKind, FastSyscallDemoReport, Session, Started, run_demo_code,
  report_of, take_last_fast_syscall_report, handle_exit_interrupt_from_registers,
}

-- What happens to the statics: a demo is started, `int 0x81` arrives, the monitor takes the report.
pub data Event : Type 0 where
  start : List ℕ → Option FastSyscallDemoKind → Event
  exit : SyscallRegisters → Event
  take : Event

pub data Answer : Type 0 where
  entered refused : Answer
  resumes : Bool → Answer
  report : Option FastSyscallDemoReport → Answer

-- The statics and the memory.
abbrev pub Statics : Type 0
Statics = Session × (ℕ → ℕ)

abbrev pub of_start : Started → Answer × Statics
of_start (ok c, u, memory) = (entered, (u, memory))
of_start (err e, u, memory) = (refused, (u, memory))

abbrev pub of_exit : (ℕ → ℕ) → Bool × Session → Answer × Statics
of_exit memory (b, u) = (resumes b, (u, memory))

abbrev pub of_take : (ℕ → ℕ) → Option FastSyscallDemoReport × Session → Answer × Statics
of_take memory (r, u) = (report r, (u, memory))

unfoldable pub call : Event → Statics → Answer × Statics
call (start code kind) (u, memory) = of_start (run_demo_code code kind u memory)
call (exit registers) (u, memory) =
    of_exit memory (handle_exit_interrupt_from_registers registers u)
call take (u, memory) = of_take memory (take_last_fast_syscall_report u)

abbrev pub calls : List Event → Statics → List Answer × Statics
calls [] s = ([], s)
calls (e ∷ es) s = let (a, s') = call e s in let (rest, last) = calls es s' in (a ∷ rest, last)

-- The specification: the monitor, with the report that is not taken yet, or a program of a kind.
pub data Phase : Type 0 where
  idle : Option FastSyscallDemoReport → Phase
  running : Option FastSyscallDemoKind → Phase

abbrev pub step : Event → Phase → Answer × Phase
step (start code kind) p = (entered, running kind)
step (exit registers) (idle r) = (resumes false, idle r)
step (exit registers) (running kind) = (resumes true, idle (report_of kind registers))
step take (idle r) = (report r, idle none)
step take (running kind) = (report none, running kind)

abbrev pub steps : List Event → Phase → List Answer × Phase
steps [] p = ([], p)
steps (e ∷ es) p = let (a, p') = step e p in let (rest, last) = steps es p' in (a ∷ rest, last)

-- The statics in a phase.
abbrev pub in_phase : UserModeContext → Phase → Session
in_phase c (idle r) = record {
  context = some c;
  last_report = r;
  pending_kind = none;
  exit_expected = false;
}
in_phase c (running kind) = record {
  context = some c;
  last_report = none;
  pending_kind = kind;
  exit_expected = true;
}

call_lem :
    (c : UserModeContext) (e : Event) (p : Phase) (memory : ℕ → ℕ)
    → call e (in_phase c p, memory)
      ≡ ((step e p).0, (in_phase c (step e p).1, (call e (in_phase c p, memory)).1.1))
unfolding call run_demo_code take_last_fast_syscall_report handle_exit_interrupt_from_registers
call_lem c (start code kind) (idle r) memory = refl
call_lem c (start code kind) (running k) memory = refl
call_lem c (exit registers) (idle r) memory = refl
call_lem c (exit registers) (running k) memory = refl
call_lem c take (idle r) memory = refl
call_lem c take (running k) memory = refl

-- Once user mode is set up, and from its start between two programs: whatever demos are started,
-- exit interrupts arrive and reports are taken, in any order, the code answers as this specification
-- does. An exit interrupt resumes the monitor only while a program runs; its report is of the kind of
-- the last start and of the registers at its end, and is taken once, before the next start.
pub phases_refine :
    (c : UserModeContext) (es : List Event) (p : Phase) (memory : ℕ → ℕ)
    → ((calls es (in_phase c p, memory)).0 ≡ (steps es p).0)
      × ((calls es (in_phase c p, memory)).1.0 ≡ in_phase c (steps es p).1)
phases_refine c [] p memory = (refl, refl)
phases_refine c (e ∷ es) p memory =
    let (answers, phases) = phases_refine c es (step e p).1 (call e (in_phase c p, memory)).1.1 in
    rw (call_lem c e p memory, answers, phases) (refl, refl)
