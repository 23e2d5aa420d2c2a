-- ===== src/Memory/Region.antt =====
-- kernel/src/memory.rs: `MemorySummary`, `summarize_memory` and the names. The regions come from the boot
-- loader's crate: a start, an end behind it, and a kind.
use jing_os.Base.{
  ℕ, ◌+◌, ◌-◌, ◌/◌, max, Bool, true, false, Option, some, List, [], ◌∷◌, length, if◌then◌else◌,
  saturating_add, Bytes, bytes,
}

-- The kinds that the code tells apart; the type has more of them.
pub data MemoryRegionKind : Type 0 where
  usable bootloader : MemoryRegionKind
  unknown_uefi unknown_bios : ℕ → MemoryRegionKind
  other : MemoryRegionKind

pub record MemoryRegion : Type 0 where
  pub start : ℕ
  pub end : ℕ
  pub kind : MemoryRegionKind

pub record MemorySummary : Type 0 where
  pub total_regions : ℕ
  pub usable_regions : ℕ
  pub usable_bytes : ℕ
  pub reserved_bytes : ℕ
  pub largest_usable_region_bytes : ℕ
  pub usable_frames_4k : ℕ

-- `region.kind == MemoryRegionKind::Usable`.
abbrev pub is_usable : MemoryRegion → Bool
is_usable r = elim r.kind [ usable ↦ true | _ ↦ false ]

-- The variables of the loop of `summarize_memory`.
pub record Totals : Type 0 where
  pub regions : ℕ
  pub free : ℕ
  pub reserved : ℕ
  pub largest : ℕ

unfoldable pub add_region : MemoryRegion → Totals → Totals
add_region r t =
    let size = r.end - r.start in
    if is_usable r
    then record {
      regions = t.regions + 1;
      free = saturating_add t.free size;
      reserved = t.reserved;
      largest = max t.largest size;
    }
    else record t { reserved = saturating_add t.reserved size }

unfoldable pub add_regions : List MemoryRegion → Totals → Totals
add_regions [] t = t
add_regions (r ∷ rs) t = add_regions rs (add_region r t)

abbrev pub no_regions : Totals
no_regions = record { regions = 0; free = 0; reserved = 0; largest = 0 }

unfoldable pub summarize_memory : List MemoryRegion → MemorySummary
summarize_memory regions =
    let t = add_regions regions no_regions in
    record {
      total_regions = length regions;
      usable_regions = t.regions;
      usable_bytes = t.free;
      reserved_bytes = t.reserved;
      largest_usable_region_bytes = t.largest;
      usable_frames_4k = t.free / 4096;
    }

unfoldable pub memory_region_kind_name : MemoryRegionKind → Bytes
memory_region_kind_name usable = bytes "usable"
memory_region_kind_name bootloader = bytes "bootloader"
memory_region_kind_name (unknown_uefi n) = bytes "unknown_uefi"
memory_region_kind_name (unknown_bios n) = bytes "unknown_bios"
memory_region_kind_name other = bytes "other"

-- `KERNEL_MEMORY_SUMMARY` after a write, and what a read of it answers.
abbrev pub set_kernel_memory_summary : MemorySummary → Option MemorySummary → Option MemorySummary
set_kernel_memory_summary summary before = some summary

abbrev pub kernel_memory_summary : Option MemorySummary → Option MemorySummary
kernel_memory_summary summary = summary
