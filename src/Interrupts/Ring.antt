-- ===== src/Interrupts/Ring.antt =====
-- kernel/src/interrupts.rs: the ring of scancodes is the queue that it promises, whatever the
-- interleaving of the interrupt's pushes and the monitor's pops.
use mathlib.Core.Path.{ap₂}
use jing_os.Base.{
  ℕ, zero, suc, ◌+◌, ◌-◌, ◌%◌, ◌≤◌, ◌<◌, ◌≡◌, ◌≢◌, refl, ap, Option, List, [], ◌∷◌, ◌++◌, arith,
  length, length-set, get_or, set, get_or-set_self, get_or-set_ne, inl, inr, ◌==◌, Bool-cases,
}
use jing_os.Interrupts.Scancodes.{buffer_size, ScancodeBuffer, new, repair, push, pop}
use jing_os.Interrupts.Fifo.{Fifo, enqueue, dequeue}

pub record IsValid (b : ScancodeBuffer) : Type 0 where
  pub size : length b.entries ≡ buffer_size
  pub read_in : b.read_index < buffer_size
  pub write_at : b.write_index ≡ (b.read_index + b.len) % buffer_size
  pub fits : b.len ≤ buffer_size

pub new-IsValid : IsValid new
new-IsValid = omega arith

-- The repair never fires in a valid buffer.
repair_valid : (b : ScancodeBuffer) → IsValid b → repair b ≡ b
unfolding repair
repair_valid b v = ground arith

pub push-IsValid : (x : ℕ) (b : ScancodeBuffer) → IsValid b → IsValid (push x b)
unfolding push
push-IsValid x b v = rw (repair_valid b v) (ground (arith, length-set b.entries b.write_index x))

pub pop-IsValid : (b : ScancodeBuffer) → IsValid b → IsValid (pop b).1
unfolding pop
pop-IsValid b v = rw (repair_valid b v) (ground arith)

-- The `n` bytes from index `i` on, round the ring.
abbrev pub items_from : List ℕ → ℕ → ℕ → List ℕ
items_from entries i zero = []
items_from entries i (suc n) = get_or entries i 0 ∷ items_from entries ((i + 1) % 128) n

abbrev pub view : ScancodeBuffer → Fifo
view b = record { items = items_from b.entries b.read_index b.len; refused = b.dropped }

length-items_from : (entries : List ℕ) (i n : ℕ) → length (items_from entries i n) ≡ n
length-items_from entries i zero = refl
length-items_from entries i (suc n) = ap suc (length-items_from entries ((i + 1) % 128) n)

-- A byte written behind the last one of fewer than 128 joins them at the end.
items_from-set :
    (entries : List ℕ) (x i n j : ℕ)
    → length entries ≡ 128
    → i < 128
    → n < 128
    → j ≡ (i + n) % 128
    → items_from (set entries j x) i (suc n) ≡ items_from entries i n ++ (x ∷ [])
items_from-set entries x i zero j size hi hn e =
    let here : i ≡ j = omega arith in
    rw here (ap (λ y. y ∷ []) (get_or-set_self entries j x 0 (omega arith)))
items_from-set entries x i (suc n) j size hi hn e =
    let apart : j ≢ i = omega arith in
    ap₂ ◌∷◌ (get_or-set_ne entries x 0 apart)
      (items_from-set entries x ((i + 1) % 128) n j size (omega arith) (omega arith) (omega arith))

pub push_refines : (x : ℕ) (b : ScancodeBuffer) → IsValid b → view (push x b) ≡ enqueue x (view b)
unfolding push enqueue
push_refines x b v = rw (repair_valid b v) (elim (Bool-cases (b.len == 128)) [
  | inl full ↦ ground (arith, length-items_from b.entries b.read_index b.len)
  | inr room ↦ ground (
    arith,
    length-items_from b.entries b.read_index b.len,
    items_from-set b.entries x b.read_index b.len b.write_index,
  )
])

items_from-pred :
    (entries : List ℕ) (i n : ℕ)
    → n ≢ 0
    → items_from entries i n ≡ get_or entries i 0 ∷ items_from entries ((i + 1) % 128) (n - 1)
items_from-pred entries i zero h = absurd (h refl)
items_from-pred entries i (suc n) h = ap (λ k. items_from entries i (suc k)) (omega arith)

pub pop_refines : (b : ScancodeBuffer) → IsValid b → ((pop b).0, view (pop b).1) ≡ dequeue (view b)
unfolding pop dequeue
pop_refines b v =
    rw (repair_valid b v) (ground (arith, items_from-pred b.entries b.read_index b.len))

-- What happens to the buffer: the keyboard interrupt pushes, the monitor's loop pops.
pub data Event : Type 0 where
  pushes : ℕ → Event
  pops : Event

-- The answers of the pops, in order.
abbrev pub run : List Event → ScancodeBuffer → List (Option ℕ) × ScancodeBuffer
run [] b = ([], b)
run (pushes x ∷ es) b = run es (push x b)
run (pops ∷ es) b =
    let (answer, b') = pop b in let (answers, last) = run es b' in (answer ∷ answers, last)

abbrev pub run_fifo : List Event → Fifo → List (Option ℕ) × Fifo
run_fifo [] q = ([], q)
run_fifo (pushes x ∷ es) q = run_fifo es (enqueue x q)
run_fifo (pops ∷ es) q =
    let (answer, q') = dequeue q in let (answers, last) = run_fifo es q' in (answer ∷ answers, last)

-- Whatever the interleaving of interrupts and polls, the monitor pops exactly what a queue of 128
-- bytes would give it, in the same order, and the buffer counts exactly the bytes that this queue
-- refuses; and the buffer stays valid.
pub run_refines :
    (es : List Event) (b : ScancodeBuffer)
    → IsValid b
    → (((run es b).0, view (run es b).1) ≡ run_fifo es (view b)) × IsValid (run es b).1
run_refines [] b v = (refl, v)
run_refines (pushes x ∷ es) b v =
    rw (← push_refines x b v) (run_refines es (push x b) (push-IsValid x b v))
run_refines (pops ∷ es) b v =
    let (e, w) = run_refines es (pop b).1 (pop-IsValid b v) in
    (rw (← pop_refines b v) (ap (λ (r : List (Option ℕ) × Fifo). ((pop b).0 ∷ r.0, r.1)) e), w)
