-- ===== src/Interrupts/Fifo.antt =====
-- What the scancode buffer promises: a queue of at most `buffer_size` bytes, oldest first, with a
-- count of the bytes refused.
use jing_os.Base.{
  ℕ, ◌+◌, ◌%◌, ◌^◌, Option, none, some, List, [], ◌∷◌, ◌++◌, ◌==◌, if◌then◌else◌, length,
}
use jing_os.Interrupts.Scancodes.{buffer_size}

pub record Fifo : Type 0 where
  pub items : List ℕ
  pub refused : ℕ

unfoldable pub enqueue : ℕ → Fifo → Fifo
enqueue x q =
    if length q.items == buffer_size
    then record q { refused = (q.refused + 1) % 2 ^ 64 }
    else record q { items = q.items ++ (x ∷ []) }

unfoldable pub dequeue : Fifo → Option ℕ × Fifo
dequeue q = elim q.items [ [] ↦ (none, q) | x ∷ rest ↦ (some x, record q { items = rest }) ]
