-- ===== src/Memory/Summary.antt =====
-- kernel/src/memory.rs: the summary of a memory map against sums over its regions.
use jing_os.Base.{
  ℕ, ◌+◌, ◌-◌, ◌/◌, ◌≤◌, ◌≡◌, ◌∙◌, min, max, Bool, List, [], ◌∷◌, length, if◌then◌else◌, u64_max,
  arith, Bool-cases, inl, inr,
}
use jing_os.Memory.Region.{
  MemoryRegion, is_usable, Totals, add_region, add_regions, no_regions, summarize_memory,
}

abbrev pub size_of : MemoryRegion → ℕ
size_of r = r.end - r.start

abbrev pub count_of : Bool → ℕ
count_of b = if b then 1 else 0

-- A sum over the regions, and the largest of their values.
abbrev pub sum_of : (MemoryRegion → ℕ) → List MemoryRegion → ℕ
sum_of f [] = 0
sum_of f (r ∷ rs) = f r + sum_of f rs

abbrev pub largest_of : (MemoryRegion → ℕ) → List MemoryRegion → ℕ
largest_of f [] = 0
largest_of f (r ∷ rs) = max (f r) (largest_of f rs)

abbrev pub usable_size : MemoryRegion → ℕ
usable_size r = if is_usable r then size_of r else 0

abbrev pub reserved_size : MemoryRegion → ℕ
reserved_size r = if is_usable r then 0 else size_of r

add_regions_lem :
    (rs : List MemoryRegion) (t : Totals)
    → t.free ≤ u64_max
    → t.reserved ≤ u64_max
    → add_regions rs t ≡ record {
      regions = t.regions + sum_of (λ r. count_of (is_usable r)) rs;
      free = min (t.free + sum_of usable_size rs) u64_max;
      reserved = min (t.reserved + sum_of reserved_size rs) u64_max;
      largest = max t.largest (largest_of usable_size rs);
    }
unfolding add_regions add_region
add_regions_lem [] t h h' = ground arith
add_regions_lem (r ∷ rs) t h h' =
    add_regions_lem rs (add_region r t) (ground arith) (ground arith)
    ∙ elim (Bool-cases (is_usable r)) [ inl e ↦ rw e (ground arith) | inr e ↦ rw e (ground arith) ]

-- The summary of a memory map: the number of its regions and of the usable ones, the bytes of these
-- and of the others, each sum no more than 64 bits hold, the largest usable region, and the frames of
-- 4096 bytes that fit the usable bytes.
pub summarize_memory_lem :
    (rs : List MemoryRegion)
    → summarize_memory rs ≡ (
        let bytes = min (sum_of usable_size rs) u64_max in
        record {
          total_regions = length rs;
          usable_regions = sum_of (λ r. count_of (is_usable r)) rs;
          usable_bytes = bytes;
          reserved_bytes = min (sum_of reserved_size rs) u64_max;
          largest_usable_region_bytes = largest_of usable_size rs;
          usable_frames_4k = bytes / 4096;
        })
unfolding summarize_memory
summarize_memory_lem rs =
    rw (add_regions_lem rs no_regions (omega arith) (omega arith)) (ground arith)
