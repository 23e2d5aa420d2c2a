-- ===== src/Syscall/Laws.antt =====
-- kernel/src/syscall.rs: what a caller gets through the registers is what `dispatch` answered.
use jing_os.Base.{ℕ, ◌+◌, ◌≤◌, ◌<◌, ◌≡◌, refl, ◌↔◌, none, arith, Result, ok, err, u64_max}
use jing_os.Syscall.Abi.{
  Context, SyscallRegisters, SyscallError, unknown_number, overflow, context_unavailable, dispatch,
  encode_error, decode_response, handle_interrupt_from_registers, answer_in,
}
use jing_os.Syscall.Entry.{interrupt_entry, invoke_via_interrupt, fast_entry}

decode-answer_in :
    (r : SyscallRegisters) (a : Result ℕ SyscallError)
    → decode_response (answer_in r a).rcx (answer_in r a).rax ≡ a
unfolding decode_response encode_error
decode-answer_in r (ok value) = refl
decode-answer_in r (err (unknown_number n)) = refl
decode-answer_in r (err overflow) = refl
decode-answer_in r (err context_unavailable) = refl

-- A call through `int 0x80` gives its caller exactly the value or the error that `dispatch` answered,
-- for every call number and arguments, whatever the other registers hold.
pub invoke-dispatch :
    (c : Context) (before : SyscallRegisters) (number arg0 arg1 arg2 : ℕ)
    → invoke_via_interrupt c before number arg0 arg1 arg2 ≡ dispatch c number arg0 arg1 arg2
unfolding invoke_via_interrupt interrupt_entry handle_interrupt_from_registers
invoke-dispatch c before number arg0 arg1 arg2 =
    decode-answer_in (record before { rax = number; rdi = arg0; rsi = arg1; rdx = arg2 })
      (dispatch c number arg0 arg1 arg2)

-- A caller of `syscall` finds the value in `rax` and the status in `r10`, which decode to what
-- `dispatch` answered; `rcx` and `r11`, from which `sysretq` takes the return address and the flags,
-- and every other register are as they were.
pub fast_entry_lem :
    (c : Context) (r : SyscallRegisters)
    → (decode_response (fast_entry c r).r10 (fast_entry c r).rax
        ≡ dispatch c r.rax r.rdi r.rsi r.rdx)
      × (fast_entry c r ≡ record r { rax = (fast_entry c r).rax; r10 = (fast_entry c r).r10 })
unfolding fast_entry handle_interrupt_from_registers
fast_entry_lem c r = (
  decode-answer_in r (dispatch c r.rax r.rdi r.rsi r.rdx),
  others (dispatch c r.rax r.rdi r.rsi r.rdx),
)
  where
    others :
        (a : Result ℕ SyscallError)
        → (let w = answer_in r a in record w { r10 = w.rcx; rcx = r.rcx; r11 = r.r11 })
          ≡ (let w = answer_in r a in record r { rax = w.rax; r10 = w.rcx })
    others (ok value) = refl
    others (err e) = refl

-- Exactly the calls numbered above 4 are answered as unknown; `add` gives the sum of two 64-bit
-- numbers exactly if it fits 64 bits, and reports the overflow exactly if it does not; the two memory
-- queries fail exactly while there is no summary of the memory.
pub dispatch_cases :
    (c : Context) (number a b x : ℕ)
    → ((dispatch c number a b x ≡ err (unknown_number number)) ↔ (4 < number))
      × ((dispatch c 2 a b x ≡ ok (a + b)) ↔ (a + b ≤ u64_max))
      × ((dispatch c 2 a b x ≡ err overflow) ↔ (u64_max < a + b))
      × ((dispatch c 3 a b x ≡ err context_unavailable) ↔ (c.memory ≡ none))
      × ((dispatch c 4 a b x ≡ err context_unavailable) ↔ (c.memory ≡ none))
unfolding dispatch
dispatch_cases c number a b x = (
  ((λ e. ground arith), (λ h. ground arith)),
  ((λ e. ground arith), (λ h. ground arith)),
  ((λ e. ground arith), (λ h. ground arith)),
  ((λ e. ground arith), (λ e. ground arith)),
  ((λ e. ground arith), (λ e. ground arith)),
)
