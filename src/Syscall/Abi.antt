-- ===== src/Syscall/Abi.antt =====
-- kernel/src/syscall.rs: `dispatch`, the encoding of its result in registers, and its decoding.
use jing_os.Base.{
  ℕ, ◌+◌, ◌/◌, Option, none, some, leb, ◌==◌, if◌then◌else◌, u64_max, Result, ok, err, ok_or, Bytes,
  bytes,
}

abbrev pub syscall_interrupt_vector : ℕ
syscall_interrupt_vector = 0x80

abbrev pub syscall_get_ticks : ℕ
syscall_get_ticks = 0

abbrev pub syscall_get_uptime_seconds : ℕ
syscall_get_uptime_seconds = 1

abbrev pub syscall_add : ℕ
syscall_add = 2

abbrev pub syscall_get_usable_memory : ℕ
syscall_get_usable_memory = 3

abbrev pub syscall_get_usable_frames : ℕ
syscall_get_usable_frames = 4

abbrev pub syscall_status_ok : ℕ
syscall_status_ok = 0

abbrev pub syscall_status_unknown_number : ℕ
syscall_status_unknown_number = 1

abbrev pub syscall_status_overflow : ℕ
syscall_status_overflow = 2

abbrev pub syscall_status_context_unavailable : ℕ
syscall_status_context_unavailable = 3

pub record SyscallRegisters : Type 0 where
  pub rax : ℕ
  pub rbx : ℕ
  pub rcx : ℕ
  pub rdx : ℕ
  pub rsi : ℕ
  pub rdi : ℕ
  pub rbp : ℕ
  pub r8 : ℕ
  pub r9 : ℕ
  pub r10 : ℕ
  pub r11 : ℕ
  pub r12 : ℕ
  pub r13 : ℕ
  pub r14 : ℕ
  pub r15 : ℕ

pub data SyscallError : Type 0 where
  unknown_number : ℕ → SyscallError
  overflow context_unavailable : SyscallError

-- What `dispatch` reads of the kernel: `interrupts::ticks()`, `interrupts::pit_hz()`, and of
-- `memory::kernel_memory_summary()` the usable bytes and 4 KiB frames.
pub record Context : Type 0 where
  pub ticks : ℕ
  pub pit_hz : ℕ
  pub memory : Option (ℕ × ℕ)

-- `u64::checked_add`.
abbrev pub checked_add : ℕ → ℕ → Option ℕ
checked_add a b = if leb (a + b) u64_max then some (a + b) else none

abbrev pub usable_bytes : Option (ℕ × ℕ) → Result ℕ SyscallError
usable_bytes none = err context_unavailable
usable_bytes (some (b, frames)) = ok b

abbrev pub usable_frames : Option (ℕ × ℕ) → Result ℕ SyscallError
usable_frames none = err context_unavailable
usable_frames (some (b, frames)) = ok frames

-- The division is by a frequency of at least 19 (`Interrupts.Timing`).
unfoldable pub dispatch : Context → ℕ → ℕ → ℕ → ℕ → Result ℕ SyscallError
dispatch c number arg0 arg1 _arg2 =
    if number == syscall_get_ticks
    then ok c.ticks
    else (if number == syscall_get_uptime_seconds
        then ok (c.ticks / c.pit_hz)
        else (if number == syscall_add
            then ok_or (checked_add arg0 arg1) overflow
            else (if number == syscall_get_usable_memory
                then usable_bytes c.memory
                else (if number == syscall_get_usable_frames
                    then usable_frames c.memory
                    else err (unknown_number number)))))

-- The value and the status.
unfoldable pub encode_error : SyscallError → ℕ × ℕ
encode_error (unknown_number number) = (number, syscall_status_unknown_number)
encode_error overflow = (0, syscall_status_overflow)
encode_error context_unavailable = (0, syscall_status_context_unavailable)

unfoldable pub decode_response : ℕ → ℕ → Result ℕ SyscallError
decode_response status value =
    if status == syscall_status_ok
    then ok value
    else (if status == syscall_status_unknown_number
        then err (unknown_number value)
        else (if status == syscall_status_overflow
            then err overflow
            else (if status == syscall_status_context_unavailable
                then err context_unavailable
                else err context_unavailable)))

abbrev pub answer_in : SyscallRegisters → Result ℕ SyscallError → SyscallRegisters
answer_in r (ok value) = record r { rax = value; rcx = syscall_status_ok }
answer_in r (err e) = let (value, status) = encode_error e in record r { rax = value; rcx = status }

unfoldable pub handle_interrupt_from_registers : Context → SyscallRegisters → SyscallRegisters
handle_interrupt_from_registers c r = answer_in r (dispatch c r.rax r.rdi r.rsi r.rdx)

unfoldable pub syscall_name : ℕ → Bytes
syscall_name number =
    if number == syscall_get_ticks
    then bytes "get_ticks"
    else (if number == syscall_get_uptime_seconds
        then bytes "get_uptime_seconds"
        else (if number == syscall_add
            then bytes "add"
            else (if number == syscall_get_usable_memory
                then bytes "get_usable_memory"
                else (if number == syscall_get_usable_frames
                    then bytes "get_usable_frames"
                    else bytes "unknown"))))

unfoldable pub error_name : SyscallError → Bytes
error_name (unknown_number number) = bytes "unknown syscall number"
error_name overflow = bytes "arithmetic overflow"
error_name context_unavailable = bytes "syscall context unavailable"
