-- ===== src/Memory/Frames.antt =====
-- kernel/src/memory.rs: `BootInfoFrameAllocator`. A frame is the address where it starts.
use jing_os.Base.{
  ℕ, zero, suc, ◌+◌, ◌-◌, ◌*◌, ◌/◌, max, Option, none, some, List, [], ◌∷◌, ◌++◌, length, leb,
  if◌then◌else◌, drop,
}
use jing_os.Memory.Region.{MemoryRegion, is_usable}

abbrev pub min_allocatable_phys_addr : ℕ
min_allocatable_phys_addr = 0x10_0000

-- `Size4KiB::SIZE`.
abbrev pub frame_size : ℕ
frame_size = 4096

-- `n` addresses, each a frame behind the one before it.
abbrev pub stepped : ℕ → ℕ → List ℕ
stepped start zero = []
stepped start (suc n) = start ∷ stepped (start + frame_size) n

-- `(start..end).step_by(4096)`.
abbrev pub step_by : ℕ → ℕ → List ℕ
step_by start end = stepped start ((end - start + (frame_size - 1)) / frame_size)

-- `PhysFrame::containing_address`.
abbrev pub containing_address : ℕ → ℕ
containing_address address = address / frame_size * frame_size

abbrev pub frames_from : List ℕ → List ℕ
frames_from [] = []
frames_from (a ∷ addresses) = containing_address a ∷ frames_from addresses

-- The frames of one region.
unfoldable pub region_frames : MemoryRegion → List ℕ
region_frames region =
    if is_usable region
    then (let start = max region.start min_allocatable_phys_addr in
        if leb region.end start then [] else frames_from (step_by start region.end))
    else []

unfoldable pub usable_frames : List MemoryRegion → List ℕ
usable_frames [] = []
usable_frames (region ∷ regions) = region_frames region ++ usable_frames regions

pub record BootInfoFrameAllocator : Type 0 where
  pub memory_regions : List MemoryRegion
  pub next : ℕ

abbrev pub init : List MemoryRegion → BootInfoFrameAllocator
init regions = record { memory_regions = regions; next = 0 }

-- `Iterator::nth`.
abbrev pub nth : List ℕ → ℕ → Option ℕ
nth [] i = none
nth (x ∷ xs) zero = some x
nth (x ∷ xs) (suc i) = nth xs i

abbrev pub allocated_frames : BootInfoFrameAllocator → ℕ
allocated_frames a = a.next

abbrev pub remaining_usable_frames_estimate : BootInfoFrameAllocator → ℕ
remaining_usable_frames_estimate a = length (drop a.next (usable_frames a.memory_regions))

unfoldable pub allocate_frame : BootInfoFrameAllocator → Option ℕ × BootInfoFrameAllocator
allocate_frame a = (nth (usable_frames a.memory_regions) a.next, record a { next = a.next + 1 })
