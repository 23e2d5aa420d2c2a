-- ===== src/Memory/HeapLaws.antt =====
-- kernel/src/heap.rs: what `init_heap` promises, over any page tables that behave as `IsMapper` says.
use jing_os.Base.{
  ℕ, zero, suc, ◌+◌, ◌%◌, ◌≤◌, ◌<◌, ◌≡◌, refl, sym, ap, ◌∙◌, ◌⊎◌, Option, none, some, List, arith,
  Result, ok, err, and_then,
}
use jing_os.Memory.Region.{MemoryRegion}
use jing_os.Memory.Frames.{usable_frames, nth, allocate_frame}
use jing_os.Memory.Inside.{IsMap, InsideSome, usable_frames-Inside}
use jing_os.Memory.Mapper.{MapToError, Mapper, IsMapper, State}
use jing_os.Memory.Mapping.{present_writable}
use jing_os.Memory.Heap.{heap_start, heap_size, map_heap_page, map_pages, init_heap}
use jing_os.Memory.Backing.{Loop, turn_lem, All-nth}
use jing_os.Memory.Joined.{and_then_lem}

module _ (m : Mapper) (law : IsMapper m) (rs : List MemoryRegion) (map : IsMap rs) where
  -- A turn of the loop and those behind it, by whether a frame is left.
  map_heap_page_lem :
      (n page : ℕ) (s : State m) (f : Option ℕ)
      (k : State m → Result (Unit {0}) MapToError × State m)
      → page % 4096 ≡ 0
      → nth (usable_frames rs) s.allocator.next ≡ f
      → ((s' : State m)
          → s'.allocator.memory_regions ≡ s.allocator.memory_regions
          → Loop m rs n (page + 4096) s' (k s'))
      → Loop m rs (suc n) page s (
          and_then
            (map_heap_page m s page (f, record s.allocator { next = s.allocator.next + 1 }))
            k)
  map_heap_page_lem n page s none k a e h = record { others = λ v o. refl; heap = refl }
  map_heap_page_lem n page s (some f) k a e h =
      let after = record s.allocator { next = s.allocator.next + 1 } in
      let r = m.map_to s.pages page f present_writable after in
      and_then_lem m rs map n page f a s (map_heap_page m s page (some f, after)) k
        (turn_lem m s page f present_writable r (law s.pages page f present_writable after)) e h

  pub map_pages_lem :
      (n page : ℕ) (s : State m)
      → page % 4096 ≡ 0
      → s.allocator.memory_regions ≡ rs
      → Loop m rs n page s (map_pages m n page s)
  unfolding allocate_frame
  map_pages_lem zero page s a e = record {
    backed = λ v l h. absurd (omega (arith, l, h));
    apart = λ v w l h l' h' q. absurd (omega (arith, l, h));
    others = λ v o. refl;
    heap = refl;
  }
  map_pages_lem (suc n) page s a e =
      map_heap_page_lem n page s (nth (usable_frames s.allocator.memory_regions) s.allocator.next)
        (map_pages m n (page + 4096)) a (ap (λ x. nth (usable_frames x) s.allocator.next) (sym e))
        (λ s' e'. map_pages_lem n (page + 4096) s' (omega arith) (e' ∙ e))

abbrev InHeap : ℕ → Type 0
InHeap v = (heap_start ≤ v) × (v < heap_start + heap_size)

-- A frame of a usable region backs an address.
abbrev pub BackedByFrame : (m : Mapper) → List MemoryRegion → State m → ℕ → Type 0
BackedByFrame m rs s v =
    (f : ℕ) × InsideSome rs f × (m.translate_addr s.pages v ≡ some (f + v % 4096))

abbrev HeapReady :
    (m : Mapper) → State m → ℕ → ℕ → ℕ → Result (Unit {0}) MapToError × State m → Type 0
HeapReady m s v w u (ok t, s') =
    (s'.heap ≡ some (heap_start, heap_size))
    × BackedByFrame m s.allocator.memory_regions s' v
    × (m.translate_addr s'.pages v ≡ m.translate_addr s'.pages w → v ≡ w)
    × (m.translate_addr s'.pages u ≡ m.translate_addr s.pages u)
HeapReady m s v w u (err e, s') =
    (s'.heap ≡ s.heap) × (m.translate_addr s'.pages u ≡ m.translate_addr s.pages u)

ready_lem :
    (m : Mapper) (s : State m) (v w u : ℕ) (r : Result (Unit {0}) MapToError × State m)
    → IsMap s.allocator.memory_regions
    → InHeap v
    → InHeap w
    → (u < heap_start) ⊎ (heap_start + heap_size ≤ u)
    → Loop m s.allocator.memory_regions 25 heap_start s r
    → HeapReady m s v w u
        (and_then r (λ s'. (ok tt, record s' { heap = some (heap_start, heap_size) })))
ready_lem m s v w u (ok t, s') map (l, h) (l', h') o mapped =
    let b = mapped.backed v l h in
    let rs = s.allocator.memory_regions in
    let (inside, distinct) = usable_frames-Inside rs map in
    (
      refl,
      (
        b.frame,
        All-nth (InsideSome rs) (usable_frames rs) b.index b.frame inside b.taken,
        b.translated,
      ),
      mapped.apart v w l h l' h',
      mapped.others u o,
    )
ready_lem m s v w u (err e, s') map v_in w_in o stopped = (stopped.heap, stopped.others u o)

-- If the memory map is made of whole frames that do not overlap: when `init_heap` succeeds, the heap
-- is the 100 KiB at its start, each of its bytes is backed by a frame of usable memory, no two of
-- them by the same byte; when it fails, the heap is not set up. In both cases an address outside the
-- heap translates as before.
pub init_heap_lem :
    (m : Mapper) (law : IsMapper m) (s : State m) (v w u : ℕ)
    → IsMap s.allocator.memory_regions
    → InHeap v
    → InHeap w
    → (u < heap_start) ⊎ (heap_start + heap_size ≤ u)
    → HeapReady m s v w u (init_heap m s)
unfolding init_heap
init_heap_lem m law s v w u map v_in w_in o =
    ready_lem m s v w u (map_pages m 25 heap_start s) map v_in w_in o
      (map_pages_lem m law s.allocator.memory_regions map 25 heap_start s refl refl)
