-- ===== src/Interrupts/Pit.antt =====
-- kernel/src/interrupts.rs: `program_pit`, the timer's divisor and what is written to its ports.
use jing_os.Base.{ℕ, ◌-◌, ◌/◌, ◌%◌, ◌^◌, List, [], ◌∷◌, min, max}

abbrev pub pit_input_hz : ℕ
pit_input_hz = 1_193_182

abbrev pub pit_min_hz : ℕ
pit_min_hz = 19

abbrev pub pit_max_hz : ℕ
pit_max_hz = pit_input_hz

abbrev pub pit_command_port : ℕ
pit_command_port = 0x43

abbrev pub pit_channel0_port : ℕ
pit_channel0_port = 0x40

-- `Ord::clamp`.
abbrev pub clamp : ℕ → ℕ → ℕ → ℕ
clamp x low high = max low (min x high)

-- The conversion `as u16`.
unfoldable pub divisor_for : ℕ → ℕ
divisor_for requested_hz =
    let hz = clamp requested_hz pit_min_hz pit_max_hz in
    clamp (pit_input_hz / hz) 1 (2 ^ 16 - 1) % 2 ^ 16

-- A byte written to a port.
abbrev pub PortWrite : Type 0
PortWrite = ℕ × ℕ

-- The frequency that results, and the writes in their order.
unfoldable pub program_pit : ℕ → ℕ × List PortWrite
program_pit requested_hz =
    let divisor = divisor_for requested_hz in
    (
      clamp (pit_input_hz / divisor) pit_min_hz pit_max_hz,
      (pit_command_port, 0x36)
          ∷ (pit_channel0_port, divisor % 256)
          ∷ (pit_channel0_port, divisor / 2 ^ 8)
          ∷ [],
    )
