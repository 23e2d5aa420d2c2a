-- ===== src/Memory/Mapper.antt =====
-- kernel/src/memory.rs, kernel/src/heap.rs and kernel/src/usermode.rs: the page tables and the memory that
-- they map pages into. `OffsetPageTable` of the x86_64 crate is a parameter, `Mapper`; what the code relies on of
-- it is `IsMapper`.
use jing_os.Base.{
  ℕ, zero, suc, ◌+◌, ◌*◌, ◌/◌, ◌%◌, ◌≡◌, Option, some, List, [], ◌∷◌, ◌==◌, if◌then◌else◌, Result,
  ok, err,
}
use jing_os.Memory.Frames.{BootInfoFrameAllocator}

-- The errors of `Mapper::map_to`.
pub data MapToError : Type 0 where
  frame_allocation_failed parent_entry_huge_page : MapToError
  page_already_mapped : ℕ → MapToError

pub record Mapper : Type 1 where
  pub Pages : Type 0
  pub translate_addr : Pages → ℕ → Option ℕ
  -- The flags with which an address is mapped.
  pub flags_of : Pages → ℕ → Option ℕ
  -- A page, a frame and the flags; the allocator is for the tables that are missing.
  pub map_to :
      Pages
      → ℕ
      → ℕ
      → ℕ
      → BootInfoFrameAllocator
      → Result (Unit {0}) MapToError × Pages × BootInfoFrameAllocator

-- An allocator after some number of calls of `allocate_frame`.
abbrev pub Taken : BootInfoFrameAllocator → BootInfoFrameAllocator → Type 0
Taken a b = (k : ℕ) × (b ≡ record a { next = a.next + k })

-- What `map_to` leaves: on success the page's addresses translate into the frame and have the flags, and
-- the others are as before; on an error all of them are.
abbrev pub Kept :
    (m : Mapper)
    → m.Pages
    → ℕ
    → ℕ
    → ℕ
    → BootInfoFrameAllocator
    → Result (Unit {0}) MapToError × m.Pages × BootInfoFrameAllocator
    → Type 0
Kept m s page frame flags a (ok u, s', a') =
    ((v : ℕ)
      → m.translate_addr s' v
        ≡ (if v / 4096 == page / 4096 then some (frame + v % 4096) else m.translate_addr s v))
    × ((v : ℕ) → m.flags_of s' v ≡ (if v / 4096 == page / 4096 then some flags else m.flags_of s v))
    × Taken a a'
Kept m s page frame flags a (err e, s', a') =
    ((v : ℕ) → m.translate_addr s' v ≡ m.translate_addr s v)
    × ((v : ℕ) → m.flags_of s' v ≡ m.flags_of s v)
    × Taken a a'

abbrev pub IsMapper : Mapper → Type 0
IsMapper m =
    (s : m.Pages) (page frame flags : ℕ) (a : BootInfoFrameAllocator)
    → Kept m s page frame flags a (m.map_to s page frame flags a)

-- The page tables, the frame allocator, the bytes at the virtual addresses, and the heap that the
-- allocator of `alloc` was given: its start and size.
pub record State (m : Mapper) : Type 0 where
  pub pages : m.Pages
  pub allocator : BootInfoFrameAllocator
  pub memory : ℕ → ℕ
  pub heap : Option (ℕ × ℕ)

-- `write_volatile` of a byte.
abbrev pub write_byte : (ℕ → ℕ) → ℕ → ℕ → ℕ → ℕ
write_byte memory address byte a = if a == address then byte else memory a

abbrev pub write_bytes : (ℕ → ℕ) → ℕ → List ℕ → ℕ → ℕ
write_bytes memory address [] = memory
write_bytes memory address (b ∷ bs) = write_bytes (write_byte memory address b) (suc address) bs

abbrev pub read_bytes : (ℕ → ℕ) → ℕ → ℕ → List ℕ
read_bytes memory address zero = []
read_bytes memory address (suc n) = memory address ∷ read_bytes memory (suc address) n

-- `to_le_bytes`, to a number of bytes.
abbrev pub to_le_bytes : ℕ → ℕ → List ℕ
to_le_bytes zero v = []
to_le_bytes (suc n) v = v % 256 ∷ to_le_bytes n (v / 256)

abbrev pub from_le_bytes : List ℕ → ℕ
from_le_bytes [] = 0
from_le_bytes (b ∷ bs) = b + 256 * from_le_bytes bs
