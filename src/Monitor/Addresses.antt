-- ===== src/Monitor/Addresses.antt =====
-- kernel/src/main.rs: at which addresses `vm` and `fault` stop the machine.
use jing_os.Base.{
  ℕ, ◌+◌, ◌≡◌, refl, ◌∙◌, Bool, true, false, ◌&&◌, none, some, List, [], ◌∷◌, Bytes, if◌then◌else◌,
  Bool-cases, Option-cases, inl, inr,
}
use jing_os.Memory.Mapping.{translate_virtual_address, demo_page_start}
use jing_os.Memory.Heap.{heap_start}
use jing_os.Memory.Walk.{is_canonical}
use jing_os.Monitor.Numbers.{parse_u64}
use jing_os.Monitor.Commands.{
  World, Platform, returns, stops, print_vm_translations, vm_at, vm, fault,
}
use jing_os.Monitor.Promised.{numbers, is_half, vm_ends, fault_ends}

-- Whether all the addresses are accepted, with the offset of the physical memory.
abbrev all_halves : ℕ → List ℕ → Bool
all_halves offset [] = true
all_halves offset (v ∷ vs) = (is_half offset && is_half v) && all_halves offset vs

module _ (k : Platform) (w : World) where
  translate_lem :
      (offset v : ℕ)
      → (is_half offset && is_half v) ≡ true
      → translate_virtual_address k.mapper k.pages offset v
        ≡ some (k.mapper.translate_addr k.pages v)
  unfolding translate_virtual_address
  translate_lem offset v e = let c : (is_canonical offset && is_canonical v) ≡ true = e in rw c refl

  panic_lem :
      (offset v : ℕ)
      → (is_half offset && is_half v) ≡ false
      → translate_virtual_address k.mapper k.pages offset v ≡ none
  unfolding translate_virtual_address
  panic_lem offset v e = let c : (is_canonical offset && is_canonical v) ≡ false = e in rw c refl

  translations_lem :
      (offset : ℕ) (vs : List ℕ)
      → print_vm_translations k offset vs w
        ≡ (if all_halves offset vs then returns false else stops, w)
  translations_lem offset [] = refl
  translations_lem offset (v ∷ vs) = elim (Bool-cases (is_half offset && is_half v)) [
    | inl e ↦
        rw (translate_lem offset v e, print_vm_translations) (rw e (translations_lem offset vs))
    | inr e ↦ rw (panic_lem offset v e, print_vm_translations) (rw e refl)
  ]

  vm_at_lem :
      (offset : ℕ) (args : List Bytes)
      → vm_at k offset args w
        ≡ (if vm_ends k (some offset) (numbers args) then returns false else stops, w)
  vm_at_lem offset [] =
      translations_lem offset
        (demo_page_start ∷ heap_start ∷ (heap_start + 4096) ∷ k.stack_probe ∷ k.code_probe ∷ [])
      ∙ elim (Bool-cases (is_half offset)) [
        | inl e ↦ elim (Bool-cases (is_half k.stack_probe)) [
          | inl f ↦ elim (Bool-cases (is_half k.code_probe)) [
            | inl g ↦ rw (e, f, g) refl
            | inr g ↦ rw (e, f, g) refl
          ]
          | inr f ↦ rw (e, f) refl
        ]
        | inr e ↦ rw e refl
      ]
  vm_at_lem offset (text ∷ rest) = elim (Option-cases (parse_u64 text)) [
    | inl e ↦ rw e refl
    | inr (v, e) ↦ rw e (
        translations_lem offset (v ∷ [])
        ∙ elim (Bool-cases (is_half offset && is_half v)) [ inl f ↦ rw f refl | inr f ↦ rw f refl ])
  ]

  pub vm_lem :
      (args : List Bytes)
      → vm k args w
        ≡ (if vm_ends k k.physical_memory_offset (numbers args) then returns false else stops, w)
  vm_lem args = elim (Option-cases k.physical_memory_offset) [
    | inl e ↦ rw e refl
    | inr (offset, e) ↦ rw e (vm_at_lem offset args)
  ]

  pub fault_lem :
      (args : List Bytes)
      → fault k args w ≡ (if fault_ends k (numbers args) then returns false else stops, w)
  fault_lem [] = elim (Bool-cases (k.readable 0xDEAD_BEEF)) [
    | inl e ↦ rw e refl
    | inr e ↦ rw e refl
  ]
  fault_lem (text ∷ rest) = elim (Option-cases (parse_u64 text)) [
    | inl e ↦ rw e refl
    | inr (v, e) ↦ elim (Bool-cases (k.readable v)) [
      | inl f ↦ rw (e, f) refl
      | inr f ↦ rw (e, f) refl
    ]
  ]
