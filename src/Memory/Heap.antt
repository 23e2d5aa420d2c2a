-- ===== src/Memory/Heap.antt =====
-- kernel/src/heap.rs: `init_heap`.
use jing_os.Base.{ℕ, zero, suc, ◌+◌, ◌-◌, ◌*◌, ◌/◌, Option, none, some, Result, ok, err, and_then}
use jing_os.Memory.Frames.{BootInfoFrameAllocator, allocate_frame}
use jing_os.Memory.Mapper.{MapToError, frame_allocation_failed, Mapper, State}
use jing_os.Memory.Mapping.{present_writable, page_of}

abbrev pub heap_start : ℕ
heap_start = 0x0000_4444_4444_0000

abbrev pub heap_size : ℕ
heap_size = 100 * 1024

-- The number of pages of `Page::range_inclusive`.
abbrev pub page_range : ℕ → ℕ → ℕ
page_range first last = suc (last / 4096) - first / 4096

module _ (m : Mapper) where
  -- Behind `map_to`.
  abbrev pub after_map_to :
      State m
      → Result (Unit {0}) MapToError × m.Pages × BootInfoFrameAllocator
      → Result (Unit {0}) MapToError × State m
  after_map_to s (r, pages, a) = (r, record s { pages = pages; allocator = a })

  -- One turn of the loop, behind `allocate_frame`.
  abbrev pub map_heap_page :
      State m → ℕ → Option ℕ × BootInfoFrameAllocator → Result (Unit {0}) MapToError × State m
  map_heap_page s page (none, a) = (err frame_allocation_failed, record s { allocator = a })
  map_heap_page s page (some frame, a) =
      after_map_to s (m.map_to s.pages page frame present_writable a)

  abbrev pub map_pages : ℕ → ℕ → State m → Result (Unit {0}) MapToError × State m
  map_pages zero page s = (ok tt, s)
  map_pages (suc n) page s =
      and_then (map_heap_page s page (allocate_frame s.allocator)) (map_pages n (page + 4096))

  unfoldable pub init_heap : State m → Result (Unit {0}) MapToError × State m
  init_heap s =
      let first_page = page_of heap_start in
      let last_page = page_of (heap_start + (heap_size - 1)) in
      and_then (map_pages (page_range first_page last_page) first_page s)
        (λ s'. (ok tt, record s' { heap = some (heap_start, heap_size) }))
