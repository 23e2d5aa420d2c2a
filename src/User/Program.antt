-- ===== src/User/Program.antt =====
-- kernel/src/user_program.rs: the demo that makes every system call once. The kernel as each call finds
-- it, and the caller's registers before it, are arguments: call `i` finds `c i` and `r i`.
use jing_os.Base.{ℕ, ◌/◌, ◌≡◌, refl, Option, none, some, Result, ok, err, ◌>>=◌}
use jing_os.Syscall.Abi.{
  Context, SyscallRegisters, SyscallError, context_unavailable, dispatch, syscall_get_ticks,
  syscall_get_uptime_seconds, syscall_add, syscall_get_usable_memory, syscall_get_usable_frames,
}
use jing_os.Syscall.Abi
use jing_os.Syscall.Entry.{invoke_via_interrupt}
use jing_os.Syscall.Laws.{invoke-dispatch}

pub record UserDemoReport : Type 0 where
  pub ticks : ℕ
  pub uptime_seconds : ℕ
  pub sum : ℕ
  pub usable_bytes : ℕ
  pub usable_frames : ℕ

unfoldable pub run_user_demo :
    (ℕ → Context) → (ℕ → SyscallRegisters) → Result UserDemoReport SyscallError
run_user_demo c r = do
  ticks_value ← invoke_via_interrupt (c 0) (r 0) syscall_get_ticks 0 0 0
  uptime ← invoke_via_interrupt (c 1) (r 1) syscall_get_uptime_seconds 0 0 0
  total ← invoke_via_interrupt (c 2) (r 2) syscall_add 40 2 0
  bytes_value ← invoke_via_interrupt (c 3) (r 3) syscall_get_usable_memory 0 0 0
  frames_value ← invoke_via_interrupt (c 4) (r 4) syscall_get_usable_frames 0 0 0
  ok (record {
    ticks = ticks_value;
    uptime_seconds = uptime;
    sum = total;
    usable_bytes = bytes_value;
    usable_frames = frames_value;
  })

-- What the demo reports, by the memory summaries that its last two calls find.
abbrev pub expected :
    (ℕ → Context) → Option (ℕ × ℕ) → Option (ℕ × ℕ) → Result UserDemoReport SyscallError
expected c none frames_of = err context_unavailable
expected c (some (b, f)) none = err context_unavailable
expected c (some (b, f)) (some (b', f')) = ok (record {
  ticks = (c 0).ticks;
  uptime_seconds = (c 1).ticks / (c 1).pit_hz;
  sum = 42;
  usable_bytes = b;
  usable_frames = f';
})

-- Whatever the registers hold before each call, the demo reports the ticks and the uptime that its
-- first two calls find, the sum 42, and the usable bytes and frames, if its last two calls find a
-- summary of the memory; if one of them finds none, it reports that the context is unavailable.
pub run_user_demo_lem :
    (c : ℕ → Context) (r : ℕ → SyscallRegisters)
    → run_user_demo c r ≡ expected c (c 3).memory (c 4).memory
unfolding run_user_demo dispatch
run_user_demo_lem c r =
    rw
      (
        invoke-dispatch (c 0) (r 0) 0 0 0 0,
        invoke-dispatch (c 1) (r 1) 1 0 0 0,
        invoke-dispatch (c 2) (r 2) 2 40 2 0,
        invoke-dispatch (c 3) (r 3) 3 0 0 0,
        invoke-dispatch (c 4) (r 4) 4 0 0 0,
      )
      (by_summaries (c 3).memory (c 4).memory)
  where
    by_summaries :
        (m m' : Option (ℕ × ℕ))
        → (do
          bytes_value ← Abi.usable_bytes m
          frames_value ← Abi.usable_frames m'
          ok (record {
            ticks = (c 0).ticks;
            uptime_seconds = (c 1).ticks / (c 1).pit_hz;
            sum = 42;
            usable_bytes = bytes_value;
            usable_frames = frames_value;
          }))
          ≡ expected c m m'
    by_summaries none m' = refl
    by_summaries (some (b, f)) none = refl
    by_summaries (some (b, f)) (some (b', f')) = refl
