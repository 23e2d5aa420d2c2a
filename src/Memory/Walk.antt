-- ===== src/Memory/Walk.antt =====
-- kernel/src/memory.rs: `walk_virtual_address`. The processor's page tables are an argument: the entry at
-- an index of the table at a virtual address, with its flags and the physical address it holds. The
-- indices, the canonical form and the bits of the flags are those of the x86_64 crate.
use jing_os.Base.{
  ℕ, ◌+◌, ◌-◌, ◌/◌, ◌%◌, ◌^◌, Bool, ◌||◌, Option, none, some, ltb, leb, ◌==◌, if◌then◌else◌, Bytes,
  bytes,
}

pub data VmPageSize : Type 0 where
  size_4kib size_2mib size_1gib : VmPageSize

unfoldable pub vm_page_size_name : VmPageSize → Bytes
vm_page_size_name size_4kib = bytes "4KiB"
vm_page_size_name size_2mib = bytes "2MiB"
vm_page_size_name size_1gib = bytes "1GiB"

pub record VmWalkInfo : Type 0 where
  pub virtual_address : ℕ
  pub canonical : Bool
  pub p4_index : ℕ
  pub p3_index : ℕ
  pub p2_index : ℕ
  pub p1_index : ℕ
  pub page_offset : ℕ
  pub p4_flags_bits : ℕ
  pub p3_flags_bits : ℕ
  pub p2_flags_bits : ℕ
  pub p1_flags_bits : ℕ
  pub physical_address : Option ℕ
  pub page_size : Option VmPageSize

-- `PageTableEntry`.
pub record Entry : Type 0 where
  pub flags : ℕ
  pub addr : ℕ

abbrev pub Tables : Type 0
Tables = ℕ → ℕ → Entry

-- `PageTableFlags::PRESENT` and `PageTableFlags::HUGE_PAGE`, the bits 0 and 7.
abbrev pub is_present : Entry → Bool
is_present e = e.flags % 2 == 1

abbrev pub is_huge : Entry → Bool
is_huge e = (e.flags / 2 ^ 7) % 2 == 1

-- `VirtAddr::try_new(v).is_ok()`: the bits from 47 on are all the same.
abbrev pub is_canonical : ℕ → Bool
is_canonical v = ltb v (2 ^ 47) || leb (2 ^ 64 - 2 ^ 47) v

abbrev pub new : ℕ → VmWalkInfo
new v = record {
  virtual_address = v;
  canonical = is_canonical v;
  p4_index = (v / 2 ^ 39) % 512;
  p3_index = (v / 2 ^ 30) % 512;
  p2_index = (v / 2 ^ 21) % 512;
  p1_index = (v / 2 ^ 12) % 512;
  page_offset = v % 2 ^ 12;
  p4_flags_bits = 0;
  p3_flags_bits = 0;
  p2_flags_bits = 0;
  p1_flags_bits = 0;
  physical_address = none;
  page_size = none;
}

module _ (tables : Tables) (physical_memory_offset : ℕ) where
  -- `page_table_from_physical`, and the entry at an index.
  abbrev pub entry_at : ℕ → ℕ → Entry
  entry_at physical_address index = tables (physical_memory_offset + physical_address) index

  -- The end of a walk, by its last level.
  abbrev pub walk_p1 : Entry → VmWalkInfo → VmWalkInfo
  walk_p1 p1_entry info =
      let info' = record info { p1_flags_bits = p1_entry.flags } in
      if is_present p1_entry
      then record info' {
        physical_address = some (p1_entry.addr + info.virtual_address % 2 ^ 12);
        page_size = some size_4kib;
      }
      else info'

  abbrev pub walk_p2 : Entry → VmWalkInfo → VmWalkInfo
  walk_p2 p2_entry info =
      let info' = record info { p2_flags_bits = p2_entry.flags } in
      if is_present p2_entry
      then (if is_huge p2_entry
          then record info' {
            physical_address = some (p2_entry.addr + info.virtual_address % 2 ^ 21);
            page_size = some size_2mib;
          }
          else walk_p1 (entry_at p2_entry.addr info.p1_index) info')
      else info'

  abbrev pub walk_p3 : Entry → VmWalkInfo → VmWalkInfo
  walk_p3 p3_entry info =
      let info' = record info { p3_flags_bits = p3_entry.flags } in
      if is_present p3_entry
      then (if is_huge p3_entry
          then record info' {
            physical_address = some (p3_entry.addr + info.virtual_address % 2 ^ 30);
            page_size = some size_1gib;
          }
          else walk_p2 (entry_at p3_entry.addr info.p2_index) info')
      else info'

  abbrev pub walk_p4 : Entry → VmWalkInfo → VmWalkInfo
  walk_p4 p4_entry info =
      let info' = record info { p4_flags_bits = p4_entry.flags } in
      if is_present p4_entry then walk_p3 (entry_at p4_entry.addr info.p3_index) info' else info'

  -- `level_4` is what `Cr3::read` answers.
  unfoldable pub walk_virtual_address : ℕ → ℕ → VmWalkInfo
  walk_virtual_address level_4 v =
      if is_canonical v then walk_p4 (entry_at level_4 ((v / 2 ^ 39) % 512)) (new v) else new v
