-- ===== src/Memory/Translation.antt =====
-- kernel/src/memory.rs: `walk_virtual_address`, against the translation that the processor does.
use jing_os.Base.{
  ℕ, zero, suc, ◌+◌, ◌*◌, ◌/◌, ◌%◌, ◌^◌, ◌≡◌, refl, Bool, true, false, ◌||◌, ◌&&◌, Option, none,
  some, ltb, leb, ◌==◌, if◌then◌else◌, arith, Bool-cases, inl, inr,
}
use jing_os.Memory.Walk.{
  VmPageSize, size_4kib, size_2mib, size_1gib, VmWalkInfo, Entry, Tables, is_canonical, new,
  entry_at, walk_p1, walk_p2, walk_p3, walk_p4, walk_virtual_address,
}

-- The bytes that an entry at a level maps, level 1 the lowest.
abbrev pub span : ℕ → ℕ
span zero = 4096
span (suc n) = 512 * span n

-- The bits PRESENT and PS of an entry.
abbrev pub bit_0 : Entry → Bool
bit_0 e = e.flags % 2 == 1

abbrev pub bit_7 : Entry → Bool
bit_7 e = (e.flags / 128) % 2 == 1

-- Whether an entry maps a page itself, `n` levels above the lowest: all of the lowest do, and those with
-- PS of the two levels above.
abbrev pub is_leaf : ℕ → Entry → Bool
is_leaf n e = n == 0 || (ltb n 3 && bit_7 e)

-- The processor's translation, for the levels left. It goes through present entries. The base of a page
-- has only the address bits above the page's own, whatever stands in those below (PAT in bit 12 of a
-- large page); PS is reserved in the table of level 4, and gives a page fault there.
abbrev pub translate : Tables → ℕ → ℕ → ℕ → ℕ → Option ℕ
translate tables offset v zero table = none
translate tables offset v (suc n) table =
    let e = tables (offset + table) ((v / span n) % 512) in
    let below = translate tables offset v n e.addr in
    if bit_0 e
    then (if is_leaf n e
        then some (e.addr / span n * span n + v % span n)
        else (if bit_7 e then none else below))
    else none

-- The entries on the way of an address are well-formed: the address of a page is a multiple of its size
-- (so that PAT is clear in a large page), and PS is clear in an entry that refers to a table.
abbrev pub WellFormed : Tables → ℕ → ℕ → ℕ → ℕ → Type 0
WellFormed tables offset v zero table = Unit {0}
WellFormed tables offset v (suc n) table =
    let e = tables (offset + table) ((v / span n) % 512) in
    bit_0 e ≡ true
    → (is_leaf n e ≡ true → e.addr % span n ≡ 0)
      × (is_leaf n e ≡ false → (bit_7 e ≡ false) × WellFormed tables offset v n e.addr)

abbrev pub size_bytes : VmPageSize → ℕ
size_bytes size_4kib = 2 ^ 12
size_bytes size_2mib = 2 ^ 21
size_bytes size_1gib = 2 ^ 30

-- Where the walk finds a physical address, it says how large the page is: the page starts at a multiple
-- of its size, and the address is as far into it as the virtual one is.
abbrev pub Located : VmWalkInfo → Type 0
Located info = elim info.physical_address [
  | none ↦ info.page_size ≡ none
  | some p ↦ elim info.page_size [
    | none ↦ ⊥
    | some s ↦
        (base : ℕ) × (base % size_bytes s ≡ 0) × (p ≡ base + info.virtual_address % size_bytes s)
  ]
]

-- The three parts of what a walk answers.
abbrev Answers : ℕ → Option ℕ → VmWalkInfo → Type 0
Answers v goal info =
    (info.physical_address ≡ goal)
    × (info.p4_index * 2 ^ 39
          + info.p3_index * 2 ^ 30
          + info.p2_index * 2 ^ 21
          + info.p1_index * 2 ^ 12
          + info.page_offset
        ≡ v % 2 ^ 48)
    × Located info

abbrev indices : ℕ → ℕ
indices v =
    (v / 2 ^ 39) % 512 * 2 ^ 39
    + (v / 2 ^ 30) % 512 * 2 ^ 30
    + (v / 2 ^ 21) % 512 * 2 ^ 21
    + (v / 2 ^ 12) % 512 * 2 ^ 12
    + v % 2 ^ 12

indices_lem : (v : ℕ) → indices v ≡ v % 2 ^ 48
indices_lem v = omega arith

module _ (tables : Tables) (offset v : ℕ) where
  walk_p1_lem :
      (table a b c : ℕ)
      → WellFormed tables offset v 1 table
      → Answers v (translate tables offset v 1 table) (
          walk_p1 tables offset
            (entry_at tables offset table ((v / 2 ^ 12) % 512))
            (record (new v) { p4_flags_bits = a; p3_flags_bits = b; p2_flags_bits = c }))
  walk_p1_lem table a b c w =
      let e = entry_at tables offset table ((v / 2 ^ 12) % 512) in
      elim (Bool-cases (bit_0 e)) [
        | inl p ↦
            let aligned = (w p).0 refl in
            let base : e.addr / 4096 * 4096 ≡ e.addr = omega (arith, aligned) in
            rw (p, base) (refl, indices_lem v, (e.addr, aligned, refl))
        | inr p ↦ rw p (refl, indices_lem v, refl)
      ]

  walk_p2_lem :
      (table a b : ℕ)
      → WellFormed tables offset v 2 table
      → Answers v (translate tables offset v 2 table) (
          walk_p2 tables offset
            (entry_at tables offset table ((v / 2 ^ 21) % 512))
            (record (new v) { p4_flags_bits = a; p3_flags_bits = b }))
  walk_p2_lem table a b w =
      let e = entry_at tables offset table ((v / 2 ^ 21) % 512) in
      elim (Bool-cases (bit_0 e)) [
        | inl p ↦ elim (Bool-cases (bit_7 e)) [
          | inl h ↦
              let aligned = (w p).0 h in
              let base : e.addr / 0x20_0000 * 0x20_0000 ≡ e.addr = omega (arith, aligned) in
              rw (p, h, base) (refl, indices_lem v, (e.addr, aligned, refl))
          | inr h ↦ rw (p, h) (walk_p1_lem e.addr a b e.flags ((w p).1 h).1)
        ]
        | inr p ↦ rw p (refl, indices_lem v, refl)
      ]

  walk_p3_lem :
      (table a : ℕ)
      → WellFormed tables offset v 3 table
      → Answers v (translate tables offset v 3 table) (
          walk_p3 tables offset
            (entry_at tables offset table ((v / 2 ^ 30) % 512))
            (record (new v) { p4_flags_bits = a }))
  walk_p3_lem table a w =
      let e = entry_at tables offset table ((v / 2 ^ 30) % 512) in
      elim (Bool-cases (bit_0 e)) [
        | inl p ↦ elim (Bool-cases (bit_7 e)) [
          | inl h ↦
              let aligned = (w p).0 h in
              let base : e.addr / 0x4000_0000 * 0x4000_0000 ≡ e.addr = omega (arith, aligned) in
              rw (p, h, base) (refl, indices_lem v, (e.addr, aligned, refl))
          | inr h ↦ rw (p, h) (walk_p2_lem e.addr a e.flags ((w p).1 h).1)
        ]
        | inr p ↦ rw p (refl, indices_lem v, refl)
      ]

  walk_p4_lem :
      (table : ℕ)
      → WellFormed tables offset v 4 table
      → Answers v
          (translate tables offset v 4 table)
          (walk_p4 tables offset (entry_at tables offset table ((v / 2 ^ 39) % 512)) (new v))
  walk_p4_lem table w =
      let e = entry_at tables offset table ((v / 2 ^ 39) % 512) in
      elim (Bool-cases (bit_0 e)) [
        | inl p ↦
            let (no_ps, below) = (w p).1 refl in rw (p, no_ps) (walk_p3_lem e.addr e.flags below)
        | inr p ↦ rw p (refl, indices_lem v, refl)
      ]

  walk_if_lem :
      (table : ℕ) (c : Bool)
      → WellFormed tables offset v 4 table
      → Answers v (if c then translate tables offset v 4 table else none) (
          if c
          then walk_p4 tables offset (entry_at tables offset table ((v / 2 ^ 39) % 512)) (new v)
          else new v)
  walk_if_lem table true w = walk_p4_lem table w
  walk_if_lem table false w = (refl, indices_lem v, refl)

-- For an address of 64 bits whose way through the tables is well-formed, the walk finds the physical
-- address that the processor translates to, and none exactly if there is none or the address is not
-- canonical; the page that it names starts at a multiple of its size; the indices and the offset that it
-- reports make up the lower 48 bits of the address.
pub walk_virtual_address_lem :
    (tables : Tables) (offset level_4 v : ℕ)
    → WellFormed tables offset v 4 level_4
    → let info = walk_virtual_address tables offset level_4 v in
      (info.physical_address ≡ (
        if ltb v 0x8000_0000_0000 || leb 0xffff_8000_0000_0000 v
        then translate tables offset v 4 level_4
        else none))
      × (info.p4_index * 2 ^ 39
            + info.p3_index * 2 ^ 30
            + info.p2_index * 2 ^ 21
            + info.p1_index * 2 ^ 12
            + info.page_offset
          ≡ v % 2 ^ 48)
      × Located info
unfolding walk_virtual_address
walk_virtual_address_lem tables offset level_4 v w =
    walk_if_lem tables offset v level_4 (is_canonical v) w
