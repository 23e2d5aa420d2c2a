-- ===== src/Memory/MappingLaws.antt =====
-- kernel/src/memory.rs: what `map_page_with_flags` promises, over any page tables that behave as
-- `IsMapper` says.
use jing_os.Base.{
  ℕ, ◌+◌, ◌/◌, ◌%◌, ◌≤◌, ◌≡◌, ◌≢◌, refl, sym, ap, ◌∙◌, ◌⊎◌, inl, inr, true, false, Option, none,
  some, arith, Bool-cases, Result, ok, err, Bytes, bytes, ◌==◌,
}
use jing_os.Memory.Frames.{usable_frames, BootInfoFrameAllocator, nth, allocate_frame}
use jing_os.Memory.Mapper.{MapToError, Mapper, Kept, IsMapper, State}
use jing_os.Memory.Mapping.{page_of, is_some, after_map_to, map_frame, map_page_with_flags}

-- The page was free, and is mapped to the next frame with the flags; every other page is as before.
pub record PageMapped (m : Mapper) (page flags : ℕ) (s s' : State m) : Type 0 where
  pub free : m.translate_addr s.pages page ≡ none
  pub frame : ℕ
  pub taken : nth (usable_frames s.allocator.memory_regions) s.allocator.next ≡ some frame
  pub mapped :
      (v : ℕ) → v / 4096 ≡ page / 4096 → m.translate_addr s'.pages v ≡ some (frame + v % 4096)
  pub others :
      (v : ℕ) → v / 4096 ≢ page / 4096 → m.translate_addr s'.pages v ≡ m.translate_addr s.pages v
  pub flagged : (v : ℕ) → v / 4096 ≡ page / 4096 → m.flags_of s'.pages v ≡ some flags
  pub other_flags : (v : ℕ) → v / 4096 ≢ page / 4096 → m.flags_of s'.pages v ≡ m.flags_of s.pages v
  pub regions : s'.allocator.memory_regions ≡ s.allocator.memory_regions
  pub next : s.allocator.next ≤ s'.allocator.next
  pub same_memory : s'.memory ≡ s.memory

-- No page translates otherwise than before; the message says why.
pub record PageRefused (m : Mapper) (page : ℕ) (e : Bytes) (s s' : State m) : Type 0 where
  pub reason :
      ((e ≡ bytes "page already mapped") × (m.translate_addr s.pages page ≢ none))
      ⊎ ((e ≡ bytes "no free frame for page mapping")
          × (nth (usable_frames s.allocator.memory_regions) s.allocator.next ≡ none))
      ⊎ (e ≡ bytes "map_to failed")
  pub others : (v : ℕ) → m.translate_addr s'.pages v ≡ m.translate_addr s.pages v
  pub same_memory : s'.memory ≡ s.memory

abbrev pub PageDone : (m : Mapper) → ℕ → ℕ → State m → Result (Unit {0}) Bytes × State m → Type 0
PageDone m page flags s (ok t, s') = PageMapped m page flags s s'
PageDone m page flags s (err e, s') = PageRefused m page e s s'

module _ (m : Mapper) (s : State m) (page : ℕ) where
  after_map_to_lem :
      (frame flags : ℕ) (r : Result (Unit {0}) MapToError × m.Pages × BootInfoFrameAllocator)
      → m.translate_addr s.pages page ≡ none
      → nth (usable_frames s.allocator.memory_regions) s.allocator.next ≡ some frame
      → Kept m s.pages page frame flags (record s.allocator { next = s.allocator.next + 1 }) r
      → PageDone m page flags s (after_map_to m s r)
  after_map_to_lem frame flags (ok u, pages, a) free taken (t, g, (k, q)) = record {
    free = free;
    frame = frame;
    taken = taken;
    mapped = λ v e. let b : (v / 4096 == page / 4096) ≡ true = ground (arith, e) in t v ∙ rw b refl;
    others =
        λ v ne. let b : (v / 4096 == page / 4096) ≡ false = ground (arith, ne) in t v ∙ rw b refl;
    flagged =
        λ v e. let b : (v / 4096 == page / 4096) ≡ true = ground (arith, e) in g v ∙ rw b refl;
    other_flags =
        λ v ne. let b : (v / 4096 == page / 4096) ≡ false = ground (arith, ne) in g v ∙ rw b refl;
    regions = ap (λ x. x.memory_regions) q;
    next = omega (arith, ap (λ x. x.next) q);
    same_memory = refl;
  }
  after_map_to_lem frame flags (err e, pages, a) free taken (t, g, k) = record {
    reason = inr (inr refl);
    others = t;
    same_memory = refl;
  }

  map_frame_lem :
      (flags : ℕ) (f : Option ℕ)
      → IsMapper m
      → m.translate_addr s.pages page ≡ none
      → nth (usable_frames s.allocator.memory_regions) s.allocator.next ≡ f
      → PageDone m page flags s (
          map_frame m
            (bytes "no free frame for page mapping")
            s
            page
            flags
            (f, record s.allocator { next = s.allocator.next + 1 }))
  map_frame_lem flags none law free e = record {
    reason = inr (inl (refl, e));
    others = λ v. refl;
    same_memory = refl;
  }
  map_frame_lem flags (some f) law free e =
      let after = record s.allocator { next = s.allocator.next + 1 } in
      after_map_to_lem f flags (m.map_to s.pages page f flags after) free e
        (law s.pages page f flags after)

is_some-none : (o : Option ℕ) → is_some o ≡ false → o ≡ none
is_some-none none e = refl
is_some-none (some x) e = ground (arith, e)

pub map_page_with_flags_lem :
    (m : Mapper) (s : State m) (v flags : ℕ)
    → IsMapper m
    → PageDone m (page_of v) flags s (map_page_with_flags m s v flags)
unfolding map_page_with_flags allocate_frame
map_page_with_flags_lem m s v flags law =
    elim (Bool-cases (is_some (m.translate_addr s.pages (page_of v)))) [
      | inl e ↦
          rw e (record { reason = inl (refl, taken e); others = λ u. refl; same_memory = refl })
      | inr e ↦ rw e (
          map_frame_lem m s (page_of v) flags
            (nth (usable_frames s.allocator.memory_regions) s.allocator.next) law
            (is_some-none (m.translate_addr s.pages (page_of v)) e) refl)
    ]
  where
    taken :
        is_some (m.translate_addr s.pages (page_of v)) ≡ true
        → m.translate_addr s.pages (page_of v) ≢ none
    taken e n = let q : false ≡ true = sym (ap is_some n) ∙ e in ground (arith, q)
