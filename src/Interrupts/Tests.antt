-- ===== src/Interrupts/Tests.antt =====
-- Runs of the scancode buffer and the timer, and the theorems on interrupts.rs at such inputs.
use jing_os.Base.{◌≤◌, ◌<◌, ◌≡◌, refl, none, some, List, [], ◌∷◌}
use jing_os.Interrupts.Scancodes.{new, repair, push, pop}
use jing_os.Interrupts.Ring.{
  IsValid, new-IsValid, Event, pushes, pops, run, run_fifo, view, run_refines,
}
use jing_os.Interrupts.Pit.{program_pit, divisor_for}
use jing_os.Interrupts.Handlers.{boot, init, uptime}
use jing_os.Interrupts.Timing.{
  tick, key, poll, retime, handle_all, IsRunning, events_IsRunning, program_pit_bounds,
}

abbrev typing : List Event
typing = pushes 0x1e ∷ pops ∷ pushes 0x30 ∷ pushes 0xb0 ∷ pops ∷ pops ∷ pops ∷ []

typing_runs : (run typing new).0 ≡ some 0x1e ∷ some 0x30 ∷ some 0xb0 ∷ none ∷ []
unfolding push pop repair
typing_runs = refl

run_refines_example :
    (((run typing new).0, view (run typing new).1) ≡ run_fifo typing (view new))
    × IsValid (run typing new).1
run_refines_example = run_refines typing new new-IsValid

pit_at_100 : (program_pit 100).0 ≡ 100
unfolding program_pit divisor_for
pit_at_100 = refl

pit_at_zero : program_pit 0 ≡ (19, (0x43, 0x36) ∷ (0x40, 79) ∷ (0x40, 245) ∷ [])
unfolding program_pit divisor_for
pit_at_zero = refl

program_pit_bounds_example : 1 ≤ divisor_for 1000
program_pit_bounds_example = (program_pit_bounds 1000).0

events_IsRunning_example :
    IsRunning (handle_all (tick ∷ key 0x1e ∷ retime 0 ∷ poll ∷ tick ∷ []) (init boot))
    × ((uptime (handle_all (tick ∷ key 0x1e ∷ retime 0 ∷ poll ∷ tick ∷ []) (init boot))).1 < 100)
events_IsRunning_example = events_IsRunning (tick ∷ key 0x1e ∷ retime 0 ∷ poll ∷ tick ∷ [])
