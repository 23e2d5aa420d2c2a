-- ===== src/Interrupts/Handlers.antt =====
-- kernel/src/interrupts.rs: the statics, the interrupt handlers and the functions over the statics.
-- Port reads are arguments, and the end-of-interrupt message to the PIC is left out.
use jing_os.Base.{ℕ, ◌+◌, ◌%◌, ◌*◌, ◌/◌, ◌^◌, Option}
use jing_os.Interrupts.Scancodes.{ScancodeBuffer, push, pop}
use jing_os.Interrupts.Scancodes
use jing_os.Interrupts.Pit.{program_pit}

pub record Statics : Type 0 where
  pub tick_count : ℕ
  pub current_pit_hz : ℕ
  pub keyboard_irqs : ℕ
  pub scancodes : ScancodeBuffer

abbrev pub boot : Statics
boot = record { tick_count = 0; current_pit_hz = 100; keyboard_irqs = 0; scancodes = Scancodes.new }

unfoldable pub timer_interrupt_handler : Statics → Statics
timer_interrupt_handler s = record s { tick_count = (s.tick_count + 1) % 2 ^ 64 }

unfoldable pub keyboard_interrupt_handler : ℕ → Statics → Statics
keyboard_interrupt_handler scancode s = record s {
  keyboard_irqs = (s.keyboard_irqs + 1) % 2 ^ 64;
  scancodes = push scancode s.scancodes;
}

unfoldable pub pop_scancode : Statics → Option ℕ × Statics
pop_scancode s = let (scancode, rest) = pop s.scancodes in (scancode, record s { scancodes = rest })

unfoldable pub keyboard_counters : Statics → ℕ × ℕ
keyboard_counters s = (s.keyboard_irqs, s.scancodes.dropped)

unfoldable pub set_pit_hz : ℕ → Statics → ℕ × Statics
set_pit_hz requested_hz s =
    let programmed_hz = (program_pit requested_hz).0 in
    (programmed_hz, record s { current_pit_hz = programmed_hz })

-- `init`, but for the loading of the IDT and the PIC's masks.
unfoldable pub init : Statics → Statics
init s = (set_pit_hz 100 s).1

-- The numbers that the command `uptime` prints: seconds and hundredths.
unfoldable pub uptime : Statics → ℕ × ℕ
uptime s =
    let ticks = s.tick_count in
    let pit_hz = s.current_pit_hz in (ticks / pit_hz, ((ticks % pit_hz) * 100) / pit_hz)
