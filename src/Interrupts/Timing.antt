-- ===== src/Interrupts/Timing.antt =====
-- kernel/src/interrupts.rs: the timer's frequency stays in its bounds, and the code never divides
-- by zero.
use jing_os.Base.{
  ℕ, ◌+◌, ◌*◌, ◌/◌, ◌%◌, ◌≤◌, ◌<◌, ◌≡◌, List, [], ◌∷◌, arith, Option, none, some, ltb, ◌==◌, ◌&&◌,
  if◌then◌else◌,
}
use native.Mathlib.Nat.{le-div_iff_mul-le, div-lt_iff_lt-mul, mod-lt, div-mul-le_self}
use jing_os.Interrupts.Ring.{push-IsValid, pop-IsValid, new-IsValid}
use jing_os.Interrupts.Ring
use jing_os.Interrupts.Pit.{pit_min_hz, pit_max_hz, clamp, divisor_for, program_pit, PortWrite}
use jing_os.Interrupts.Handlers.{
  Statics, boot, timer_interrupt_handler, keyboard_interrupt_handler, pop_scancode, set_pit_hz,
  init, uptime,
}

-- The quotient of the input frequency by one in range.
input-div :
    (h : ℕ)
    → 19 ≤ h
    → h ≤ 1193182
    → (1 ≤ 1193182 / h) × (1193182 / h ≤ 62799) × (h ≤ 1193182 / (1193182 / h))
input-div h lo hi =
    let d = 1193182 / h in
    let pos : 1 ≤ d =
      (le-div_iff_mul-le {k = h} {x = 1} {y = 1193182} (omega arith)).1 (omega arith) in
    let under : d * h ≤ 1193182 = div-mul-le_self 1193182 h in
    let small : d * 19 ≤ d * h = grind arith in
    (pos, omega arith, (le-div_iff_mul-le {k = d} {x = h} {y = 1193182} pos).1 (omega arith))

-- What channel 0 of the timer chip counts down from after three writes: the command for its low and
-- its high byte, and the two bytes.
abbrev pub loaded : List PortWrite → Option ℕ
loaded ((p, command) ∷ (q, low) ∷ (r, high) ∷ []) =
    if p == 0x43 && command == 0x36 && q == 0x40 && r == 0x40 && ltb low 256 && ltb high 256
    then some (low + 256 * high)
    else none
loaded _ = none

loaded_word :
    (d : ℕ) → d < 65536 → loaded ((0x43, 0x36) ∷ (0x40, d % 256) ∷ (0x40, d / 256) ∷ []) ≡ some d
loaded_word d h = ground arith

-- For every requested frequency, the divisor fits the chip's sixteen bits and is not zero, the three
-- writes load exactly this divisor, and the frequency answered is between 19 Hz and the input's, and
-- no lower than the requested one brought into that range.
pub program_pit_bounds :
    (requested : ℕ)
    → let (hz, writes) = program_pit requested in
      (1 ≤ divisor_for requested)
      × (divisor_for requested ≤ 62799)
      × (loaded writes ≡ some (divisor_for requested))
      × (pit_min_hz ≤ hz)
      × (hz ≤ pit_max_hz)
      × (clamp requested pit_min_hz pit_max_hz ≤ hz)
unfolding program_pit divisor_for
program_pit_bounds requested =
    let q = input-div (clamp requested 19 1193182) (omega arith) (omega arith) in
    let d = divisor_for requested in
    let same : d ≡ 1193182 / clamp requested 19 1193182 = omega (arith, q) in
    rw same (
      q.0,
      q.1,
      loaded_word (1193182 / clamp requested 19 1193182) (omega (arith, q)),
      omega arith,
      omega arith,
      omega (arith, q),
    )

-- What happens to the statics once interrupts are on.
pub data Event : Type 0 where
  tick : Event
  key : ℕ → Event
  poll : Event
  retime : ℕ → Event

abbrev pub handle : Event → Statics → Statics
handle tick s = timer_interrupt_handler s
handle (key scancode) s = keyboard_interrupt_handler scancode s
handle poll s = (pop_scancode s).1
handle (retime hz) s = (set_pit_hz hz s).1

abbrev pub handle_all : List Event → Statics → Statics
handle_all [] s = s
handle_all (e ∷ es) s = handle_all es (handle e s)

pub record IsRunning (s : Statics) : Type 0 where
  pub hz_low : pit_min_hz ≤ s.current_pit_hz
  pub hz_high : s.current_pit_hz ≤ pit_max_hz
  pub ring : Ring.IsValid s.scancodes

handle-IsRunning : (e : Event) (s : Statics) → IsRunning s → IsRunning (handle e s)
unfolding timer_interrupt_handler keyboard_interrupt_handler pop_scancode set_pit_hz
handle-IsRunning tick s v = record { hz_low = v.hz_low; hz_high = v.hz_high; ring = v.ring }
handle-IsRunning (key x) s v = record {
  hz_low = v.hz_low;
  hz_high = v.hz_high;
  ring = push-IsValid x s.scancodes v.ring;
}
handle-IsRunning poll s v = record {
  hz_low = v.hz_low;
  hz_high = v.hz_high;
  ring = pop-IsValid s.scancodes v.ring;
}
handle-IsRunning (retime hz) s v =
    let b = program_pit_bounds hz in record { hz_low = b.3; hz_high = b.4; ring = v.ring }

handle_all-IsRunning : (es : List Event) (s : Statics) → IsRunning s → IsRunning (handle_all es s)
handle_all-IsRunning [] s v = v
handle_all-IsRunning (e ∷ es) s v = handle_all-IsRunning es (handle e s) (handle-IsRunning e s v)

init-IsRunning : IsRunning (init boot)
unfolding init
init-IsRunning =
    handle-IsRunning (retime 100) boot
      (record { hz_low = omega arith; hz_high = omega arith; ring = new-IsValid })

hundredths : (t hz : ℕ) → 0 < hz → ((t % hz) * 100) / hz < 100
hundredths t hz h =
    (div-lt_iff_lt-mul {k = hz} {x = (t % hz) * 100} {y = 100} h).1 (omega (arith, mod-lt t h))

-- After `init` and any sequence of timer ticks, key presses, polls and changes of the frequency, the
-- frequency is between 19 Hz and the input's, so that no division by it faults; the scancode buffer
-- is valid; and `uptime` prints fewer than a hundred hundredths of a second.
pub events_IsRunning :
    (es : List Event)
    → IsRunning (handle_all es (init boot)) × ((uptime (handle_all es (init boot))).1 < 100)
unfolding uptime
events_IsRunning es =
    let v = handle_all-IsRunning es (init boot) init-IsRunning in
    (v, hundredths _ _ (omega (arith, v.hz_low)))
