-- ===== src/UserMode/Builder.antt =====
-- kernel/src/usermode.rs: `UserCodeBuilder`, and the machine code of the three demos.
use jing_os.Base.{
  ℕ, suc, ◌+◌, List, [], ◌∷◌, Result, ok, err, and_then, Bytes, bytes, length, set, take, replicate,
  ltb, leb, if◌then◌else◌, u64_max,
}
use jing_os.Memory.Mapper.{to_le_bytes}
use jing_os.Syscall.Abi.{syscall_get_ticks, syscall_add}

abbrev pub usermode_exit_interrupt_vector : ℕ
usermode_exit_interrupt_vector = 0x81

abbrev pub user_fast_syscall_unknown_number : ℕ
user_fast_syscall_unknown_number = 0xFFFF_FF00

abbrev pub user_code_max_bytes : ℕ
user_code_max_bytes = 256

pub record UserCode : Type 0 where
  pub bytes : List ℕ
  pub len : ℕ

abbrev pub as_slice : UserCode → List ℕ
as_slice c = take c.len c.bytes

pub record UserCodeBuilder : Type 0 where
  pub bytes : List ℕ
  pub len : ℕ

abbrev pub new : UserCodeBuilder
new = record { bytes = replicate user_code_max_bytes 0; len = 0 }

abbrev pub finish : UserCodeBuilder → UserCode
finish b = record { bytes = b.bytes; len = b.len }

abbrev pub Emitted : Type 0
Emitted = Result (Unit {0}) Bytes × UserCodeBuilder

abbrev pub too_long : Bytes
too_long = bytes "user mode demo code exceeded max length"

abbrev pub emit_byte : ℕ → UserCodeBuilder → Emitted
emit_byte byte b =
    if leb (length b.bytes) b.len
    then (err too_long, b)
    else (ok tt, record { bytes = set b.bytes b.len byte; len = b.len + 1 })

-- `copy_from_slice` into the array from an index on.
abbrev pub copy_at : List ℕ → ℕ → List ℕ → List ℕ
copy_at bs start [] = bs
copy_at bs start (x ∷ xs) = copy_at (set bs start x) (suc start) xs

abbrev pub emit_bytes : List ℕ → UserCodeBuilder → Emitted
emit_bytes code b =
    if ltb (length b.bytes) (b.len + length code)
    then (err too_long, b)
    else (ok tt, record { bytes = copy_at b.bytes b.len code; len = b.len + length code })

abbrev pub emit_mov_eax_imm32 : ℕ → UserCodeBuilder → Emitted
emit_mov_eax_imm32 value b = and_then (emit_byte 0xB8 b) (emit_bytes (to_le_bytes 4 value))

abbrev pub emit_mov_rdi_imm64 : ℕ → UserCodeBuilder → Emitted
emit_mov_rdi_imm64 value b =
    and_then (emit_bytes (0x48 ∷ 0xBF ∷ []) b) (emit_bytes (to_le_bytes 8 value))

abbrev pub emit_mov_rsi_imm64 : ℕ → UserCodeBuilder → Emitted
emit_mov_rsi_imm64 value b =
    and_then (emit_bytes (0x48 ∷ 0xBE ∷ []) b) (emit_bytes (to_le_bytes 8 value))

abbrev pub emit_mov_rdx_imm64 : ℕ → UserCodeBuilder → Emitted
emit_mov_rdx_imm64 value b =
    and_then (emit_bytes (0x48 ∷ 0xBA ∷ []) b) (emit_bytes (to_le_bytes 8 value))

abbrev pub emit_syscall : UserCodeBuilder → Emitted
emit_syscall b = emit_bytes (0x0F ∷ 0x05 ∷ []) b

abbrev pub emit_mov_r8_rax : UserCodeBuilder → Emitted
emit_mov_r8_rax b = emit_bytes (0x49 ∷ 0x89 ∷ 0xC0 ∷ []) b

abbrev pub emit_mov_r9_r10 : UserCodeBuilder → Emitted
emit_mov_r9_r10 b = emit_bytes (0x4D ∷ 0x89 ∷ 0xD1 ∷ []) b

abbrev pub emit_mov_r12_r10 : UserCodeBuilder → Emitted
emit_mov_r12_r10 b = emit_bytes (0x4D ∷ 0x89 ∷ 0xD4 ∷ []) b

abbrev pub emit_mov_r10_rax : UserCodeBuilder → Emitted
emit_mov_r10_rax b = emit_bytes (0x49 ∷ 0x89 ∷ 0xC2 ∷ []) b

abbrev pub emit_interrupt : ℕ → UserCodeBuilder → Emitted
emit_interrupt vector b = emit_bytes (0xCD ∷ vector ∷ []) b

abbrev pub emit_hang_loop : UserCodeBuilder → Emitted
emit_hang_loop b = emit_bytes (0xEB ∷ 0xFE ∷ []) b

-- The loading of the registers and the call, which both slots start with.
abbrev pub emit_call : ℕ → ℕ → ℕ → ℕ → UserCodeBuilder → Emitted
emit_call number arg0 arg1 arg2 b =
    and_then
      (and_then
        (and_then (and_then (emit_mov_eax_imm32 number b) (emit_mov_rdi_imm64 arg0))
          (emit_mov_rsi_imm64 arg1))
        (emit_mov_rdx_imm64 arg2))
      emit_syscall

unfoldable pub emit_fast_syscall_capture_slot0 : ℕ → ℕ → ℕ → ℕ → UserCodeBuilder → Emitted
emit_fast_syscall_capture_slot0 number arg0 arg1 arg2 b =
    and_then (and_then (emit_call number arg0 arg1 arg2 b) emit_mov_r8_rax) emit_mov_r9_r10

unfoldable pub emit_fast_syscall_capture_slot1 : ℕ → ℕ → ℕ → ℕ → UserCodeBuilder → Emitted
emit_fast_syscall_capture_slot1 number arg0 arg1 arg2 b =
    and_then (and_then (emit_call number arg0 arg1 arg2 b) emit_mov_r12_r10) emit_mov_r10_rax

-- `Ok(builder.finish())` behind the calls with `?`.
abbrev pub finished : Emitted → Result UserCode Bytes
finished (ok u, b) = ok (finish b)
finished (err e, b) = err e

-- The end that both programs have.
abbrev pub emit_exit : UserCodeBuilder → Emitted
emit_exit b = and_then (emit_interrupt usermode_exit_interrupt_vector b) emit_hang_loop

unfoldable pub build_fast_syscall_success_code : Result UserCode Bytes
build_fast_syscall_success_code = finished (
    and_then
      (and_then (emit_fast_syscall_capture_slot0 syscall_get_ticks 0 0 0 new)
        (emit_fast_syscall_capture_slot1 syscall_add 40 2 0))
      emit_exit)

unfoldable pub build_fast_syscall_error_code : Result UserCode Bytes
build_fast_syscall_error_code = finished (
    and_then
      (and_then (emit_fast_syscall_capture_slot0 user_fast_syscall_unknown_number 0 0 0 new)
        (emit_fast_syscall_capture_slot1 syscall_add u64_max 1 0))
      emit_exit)

abbrev pub user_int_demo_code : List ℕ
user_int_demo_code = 0xB8 ∷ 0x00 ∷ 0x00 ∷ 0x00 ∷ 0x00 ∷ 0xCD ∷ 0x80 ∷ 0xCD ∷ 0x81 ∷ 0xEB ∷ 0xFE ∷ []
