-- ===== src/Memory/Tests.antt =====
-- Runs of the memory code, and the theorems on memory.rs and heap.rs at such inputs.
use jing_os.Base.{
  ◌+◌, ◌≡◌, refl, inl, none, some, List, [], ◌∷◌, length, ◌==◌, if◌then◌else◌, arith, ok, min,
}
use jing_os.Memory.Region.{
  MemoryRegion, usable, bootloader, add_region, add_regions, summarize_memory,
}
use jing_os.Memory.Frames.{init, region_frames, usable_frames, allocated_frames, allocate_frame}
use jing_os.Memory.Summary.{summarize_memory_lem}
use jing_os.Memory.Inside.{IsMap}
use jing_os.Memory.Fresh.{allocate_times, frames_are_fresh}
use jing_os.Memory.Walk.{Tables, walk_virtual_address}
use jing_os.Memory.Translation.{translate, WellFormed, walk_virtual_address_lem}
use jing_os.Memory.Mapper.{State}
use jing_os.Memory.Mapping.{demo_page_value, map_demo_page}
use jing_os.Memory.PageList.{translate_in, mapper, mapper-IsMapper}
use jing_os.Memory.Heap.{init_heap}
use jing_os.Memory.HeapLaws.{init_heap_lem}

-- Two usable regions with the boot loader's between them; the first reaches below 1 MiB.
abbrev regions : List MemoryRegion
regions =
    record { start = 0; end = 0x10_2000; kind = usable }
    ∷ record { start = 0x10_2000; end = 0x10_4000; kind = bootloader }
    ∷ record { start = 0x10_4000; end = 0x14_0000; kind = usable }
    ∷ []

regions-IsMap : IsMap regions
regions-IsMap = (
  (refl, refl),
  (inl (omega arith), (inl (omega arith), tt)),
  ((refl, refl), (inl (omega arith), tt), ((refl, refl), tt, tt)),
)

summarize_runs : (summarize_memory regions).usable_bytes ≡ 0x10_2000 + 0x3_c000
unfolding summarize_memory add_regions add_region
summarize_runs = refl

frames_run : (allocate_times 3 (init regions)).0 ≡ 0x10_0000 ∷ 0x10_1000 ∷ 0x10_4000 ∷ []
unfolding allocate_frame usable_frames region_frames
frames_run = refl

-- A call that finds no frame is counted like the others.
exhausted_runs : allocated_frames (allocate_times 3 (init [])).1 ≡ 3
unfolding allocate_frame usable_frames
exhausted_runs = refl

frames_are_fresh_example :
    length (allocate_times 3 (init regions)).0 ≡ min 3 (length (usable_frames regions))
frames_are_fresh_example = (frames_are_fresh 3 regions regions-IsMap).2

-- Tables that map 2 MiB at 0x20_0000 by a huge page; all else is not present.
abbrev tables : Tables
tables t i =
    if t == 0x1000
    then (if i == 0 then record { flags = 3; addr = 0x2000 } else record { flags = 0; addr = 0 })
    else (if t == 0x2000
        then (if i == 0
            then record { flags = 3; addr = 0x3000 }
            else record { flags = 0; addr = 0 })
        else (if t == 0x3000
            then (if i == 1
                then record { flags = 0x83; addr = 0x40_0000 }
                else record { flags = 0; addr = 0 })
            else record { flags = 0; addr = 0 }))

walk_runs : (walk_virtual_address tables 0 0x1000 0x20_1234).physical_address ≡ some 0x40_1234
unfolding walk_virtual_address
walk_runs = refl

tables-WellFormed : WellFormed tables 0 0x20_1234 4 0x1000
tables-WellFormed _ =
    ((λ e. cc), λ _. (refl, λ _. ((λ e. cc), λ _. (refl, λ _. ((λ _. refl), λ e. cc)))))

walk_virtual_address_lem_example :
    (walk_virtual_address tables 0 0x1000 0x20_1234).physical_address
    ≡ translate tables 0 0x20_1234 4 0x1000
walk_virtual_address_lem_example =
    (walk_virtual_address_lem tables 0 0x1000 0x20_1234 tables-WellFormed).0

summarize_memory_lem_example : (summarize_memory regions).total_regions ≡ 3
summarize_memory_lem_example = rw (summarize_memory_lem regions) refl

abbrev state : State mapper
state = record { pages = []; allocator = init regions; memory = λ a. 0; heap = none }

heap_runs : (init_heap mapper state).1.heap ≡ some (0x4444_4444_0000, 102400)
unfolding init_heap allocate_frame usable_frames region_frames
heap_runs = refl

demo_page_runs : (map_demo_page mapper state).0 ≡ ok demo_page_value
unfolding map_demo_page allocate_frame usable_frames region_frames
demo_page_runs = refl

init_heap_lem_example : translate_in (init_heap mapper state).1.pages 0x1000 ≡ none
unfolding init_heap allocate_frame usable_frames region_frames
init_heap_lem_example =
    (init_heap_lem mapper mapper-IsMapper state 0x4444_4444_0123 0x4444_4444_1456 0x1000
      regions-IsMap (omega arith, omega arith) (omega arith, omega arith) (inl (omega arith))).3
