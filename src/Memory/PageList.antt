-- ===== src/Memory/PageList.antt =====
-- Page tables as a list of the numbers of the mapped pages with their frames and flags: a `Mapper` for the tests.
use jing_os.Base.{
  ℕ, ◌+◌, ◌/◌, ◌%◌, ◌≡◌, refl, inl, inr, Option, none, some, List, [], ◌∷◌, ◌==◌, if◌then◌else◌,
  arith, Bool-cases, ok, err,
}
use jing_os.Memory.Frames.{BootInfoFrameAllocator}
use jing_os.Memory.Mapper.{Mapper, page_already_mapped, IsMapper}
use jing_os.Memory.Mapping.{is_some}

abbrev pub translate_in : List (ℕ × ℕ × ℕ) → ℕ → Option ℕ
translate_in [] v = none
translate_in ((n, f, flags) ∷ rest) v =
    if v / 4096 == n then some (f + v % 4096) else translate_in rest v

abbrev pub flags_in : List (ℕ × ℕ × ℕ) → ℕ → Option ℕ
flags_in [] v = none
flags_in ((n, f, flags) ∷ rest) v = if v / 4096 == n then some flags else flags_in rest v

abbrev pub mapper : Mapper
mapper = record {
  Pages = List (ℕ × ℕ × ℕ);
  translate_addr = translate_in;
  flags_of = flags_in;
  map_to = λ s page frame flags a.
      if is_some (translate_in s page)
      then (err (page_already_mapped frame), s, a)
      else (ok tt, (page / 4096, frame, flags) ∷ s, a);
}

same_allocator : (a : BootInfoFrameAllocator) → a ≡ record a { next = a.next + 0 }
same_allocator a = let e : a.next + 0 ≡ a.next = omega arith in rw e refl

pub mapper-IsMapper : IsMapper mapper
mapper-IsMapper s page frame flags a = elim (Bool-cases (is_some (translate_in s page))) [
  | inl e ↦ rw e ((λ v. refl), (λ v. refl), (0, same_allocator a))
  | inr e ↦ rw e ((λ v. refl), (λ v. refl), (0, same_allocator a))
]
