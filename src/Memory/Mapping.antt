-- ===== src/Memory/Mapping.antt =====
-- kernel/src/memory.rs: `map_page_with_flags` and `map_demo_page`.
use jing_os.Base.{
  ℕ, ◌+◌, ◌*◌, ◌/◌, ◌&&◌, Bool, true, false, Option, none, some, if◌then◌else◌, Result, ok, err,
  Bytes, bytes,
}
use jing_os.Memory.Frames.{BootInfoFrameAllocator, allocate_frame}
use jing_os.Memory.Walk.{is_canonical}
use jing_os.Memory.Mapper.{
  MapToError, Mapper, State, write_bytes, read_bytes, to_le_bytes, from_le_bytes,
}

abbrev pub demo_page_start : ℕ
demo_page_start = 0x0000_5555_5555_0000

abbrev pub demo_page_value : ℕ
demo_page_value = 0xC0DE_CAFE_BAAD_F00D

-- `PageTableFlags::PRESENT`, `WRITABLE` and `USER_ACCESSIBLE`, the bits 0, 1 and 2.
abbrev pub present_writable : ℕ
present_writable = 1 + 2

abbrev pub present_writable_user : ℕ
present_writable_user = 1 + 2 + 4

-- `Page::containing_address`, by the page's start.
abbrev pub page_of : ℕ → ℕ
page_of v = v / 4096 * 4096

abbrev pub is_some : Option ℕ → Bool
is_some none = false
is_some (some p) = true

module _ (m : Mapper) where
  -- Behind `map_to`.
  abbrev pub after_map_to :
      State m
      → Result (Unit {0}) MapToError × m.Pages × BootInfoFrameAllocator
      → Result (Unit {0}) Bytes × State m
  after_map_to s (ok u, pages, a) = (ok tt, record s { pages = pages; allocator = a })
  after_map_to s (err e, pages, a) =
      (err (bytes "map_to failed"), record s { pages = pages; allocator = a })

  -- Behind `allocate_frame`.
  abbrev pub map_frame :
      Bytes
      → State m
      → ℕ
      → ℕ
      → Option ℕ × BootInfoFrameAllocator
      → Result (Unit {0}) Bytes × State m
  map_frame no_frame s page flags (none, a) = (err no_frame, record s { allocator = a })
  map_frame no_frame s page flags (some frame, a) =
      after_map_to s (m.map_to s.pages page frame flags a)

  abbrev pub map_new_page : Bytes → Bytes → State m → ℕ → ℕ → Result (Unit {0}) Bytes × State m
  map_new_page already no_frame s page flags =
      if is_some (m.translate_addr s.pages page)
      then (err already, s)
      else map_frame no_frame s page flags (allocate_frame s.allocator)

  unfoldable pub map_page_with_flags : State m → ℕ → ℕ → Result (Unit {0}) Bytes × State m
  map_page_with_flags s virtual_address flags =
      map_new_page (bytes "page already mapped") (bytes "no free frame for page mapping") s
        (page_of virtual_address) flags

  -- The write and the read of `map_demo_page`.
  abbrev pub probe_page : ℕ → Result (Unit {0}) Bytes × State m → Result ℕ Bytes × State m
  probe_page page (err e, s) = (err e, s)
  probe_page page (ok u, s) =
      let written = write_bytes s.memory page (to_le_bytes 8 demo_page_value) in
      (ok (from_le_bytes (read_bytes written page 8)), record s { memory = written })

  unfoldable pub map_demo_page : State m → Result ℕ Bytes × State m
  map_demo_page s = probe_page (page_of demo_page_start) (
      map_new_page (bytes "demo page already mapped") (bytes "no free frame for demo mapping") s
        (page_of demo_page_start) present_writable)

  -- `VirtAddr::new` panics at an address that is not canonical: the answer is `none` then.
  unfoldable pub translate_virtual_address : m.Pages → ℕ → ℕ → Option (Option ℕ)
  translate_virtual_address pages physical_memory_offset virtual_address =
      if is_canonical physical_memory_offset && is_canonical virtual_address
      then some (m.translate_addr pages virtual_address)
      else none
