-- ===== src/UserMode/Setup.antt =====
-- kernel/src/usermode.rs: `init_memory`, over any page tables that behave as `IsMapper` says.
use jing_os.Base.{
  ℕ, ◌+◌, ◌*◌, ◌/◌, ◌≤◌, ◌≡◌, ◌≢◌, refl, sym, ap, ◌∙◌, ◌⊎◌, inl, inr, none, some, Result, ok, err,
  and_then, Bytes, arith,
}
use jing_os.Memory.Frames.{usable_frames, nth}
use jing_os.Memory.Inside.{IsMap, InsideSome, usable_frames-Inside}
use jing_os.Memory.Mapper.{Mapper, IsMapper, State}
use jing_os.Memory.Mapping.{page_of, present_writable_user, map_page_with_flags}
use jing_os.Memory.MappingLaws.{PageMapped, PageDone, map_page_with_flags_lem}
use jing_os.Memory.Backing.{Backed, All-nth}
use jing_os.Memory.HeapLaws.{BackedByFrame}
use jing_os.UserMode.Builder.{user_int_demo_code}
use jing_os.UserMode.Session.{
  UserModeContext, Session, user_code_start, user_stack_start, map_user_pages, set_context,
  init_memory,
}
use jing_os.UserMode.Cpu.{Holds}
use jing_os.UserMode.Demos.{demo_text-Holds}
use jing_os.UserMode.Refused.{Refused, none-Refused}

-- An address of a page that was free, and is backed now by a frame that the allocator has handed out
-- since, for user mode to read and write.
abbrev NewlyMapped : (m : Mapper) → State m → State m → ℕ → Type 0
NewlyMapped m s s' v =
    (m.translate_addr s.pages (page_of v) ≡ none)
    × Backed m s.allocator.memory_regions s' s.allocator.next v
    × (m.flags_of s'.pages v ≡ some present_writable_user)

-- The pages with these numbers are mapped, no other one translates otherwise, and no byte is written.
record AllMapped (m : Mapper) (P : ℕ → Type 0) (s s' : State m) : Type 0 where
  pub mapped : (v : ℕ) → P (v / 4096) → NewlyMapped m s s' v
  pub others : (v : ℕ) → ¬ P (v / 4096) → m.translate_addr s'.pages v ≡ m.translate_addr s.pages v
  pub regions : s'.allocator.memory_regions ≡ s.allocator.memory_regions
  pub next : s.allocator.next ≤ s'.allocator.next
  pub same_memory : s'.memory ≡ s.memory

-- The same of an attempt that ended with an error.
record SomeMapped (m : Mapper) (P : ℕ → Type 0) (s s' : State m) : Type 0 where
  pub others : (v : ℕ) → ¬ P (v / 4096) → m.translate_addr s'.pages v ≡ m.translate_addr s.pages v
  pub same_memory : s'.memory ≡ s.memory

abbrev Done : (m : Mapper) → (ℕ → Type 0) → State m → Result (Unit {0}) Bytes × State m → Type 0
Done m P s (ok t, s') = AllMapped m P s s'
Done m P s (err e, s') = SomeMapped m P s s'

-- A page mapped to the next frame is backed by one that is handed out after an earlier state.
page_Backed :
    (m : Mapper) (q : ℕ) (s s' s'' : State m) (v : ℕ)
    → v / 4096 ≡ q
    → s'.allocator.memory_regions ≡ s.allocator.memory_regions
    → s.allocator.next ≤ s'.allocator.next
    → PageMapped m (q * 4096) present_writable_user s' s''
    → Backed m s.allocator.memory_regions s'' s.allocator.next v
page_Backed m q s s' s'' v e regions next d = record {
  index = s'.allocator.next;
  frame = d.frame;
  above = next;
  taken = ap (λ x. nth (usable_frames x) s'.allocator.next) (sym regions) ∙ d.taken;
  translated = d.mapped v (omega (arith, e));
}

module _ (m : Mapper) (q : ℕ) where
  first_lem :
      (s : State m) (r : Result (Unit {0}) Bytes × State m)
      → PageDone m (q * 4096) present_writable_user s r
      → Done m (λ x. x ≡ q) s r
  first_lem s (ok t, s') d = record {
    mapped = λ v e.
        let e' : page_of v ≡ q * 4096 = omega (arith, e) in
        (
          ap (λ a. m.translate_addr s.pages a) e' ∙ d.free,
          page_Backed m q s s s' v e refl (omega arith) d,
          d.flagged v (omega (arith, e)),
        );
    others = λ v ne. d.others v (λ e. ne (omega (arith, e)));
    regions = d.regions;
    next = d.next;
    same_memory = d.same_memory;
  }
  first_lem s (err e, s') d = record { others = λ v ne. d.others v; same_memory = d.same_memory }

  module _ (P : ℕ → Type 0) (new : ¬ P q) (s s' : State m) where
    joined_lem :
        (r : Result (Unit {0}) Bytes × State m)
        → AllMapped m P s s'
        → PageDone m (q * 4096) present_writable_user s' r
        → Done m (λ x. P x ⊎ (x ≡ q)) s r
    joined_lem (ok t, s'') before d = record {
      mapped = λ v. elim [
        | inl p ↦
            let (free, b, flagged) = before.mapped v p in
            let ne : v / 4096 ≢ (q * 4096) / 4096 =
              λ c. let e' : v / 4096 ≡ q = omega (arith, c) in new (rw (sym e') p) in
            (
              free,
              record {
                index = b.index;
                frame = b.frame;
                above = b.above;
                taken = b.taken;
                translated = d.others v ne ∙ b.translated;
              },
              d.other_flags v ne ∙ flagged,
            )
        | inr e ↦
            let e' : page_of v ≡ q * 4096 = omega (arith, e) in
            let e'' : (q * 4096) / 4096 ≡ q = omega arith in
            let kept = before.others (q * 4096) (λ p. new (rw (sym e'') p)) in
            (
              ap (λ a. m.translate_addr s.pages a) e' ∙ sym kept ∙ d.free,
              page_Backed m q s s' s'' v e before.regions before.next d,
              d.flagged v (omega (arith, e)),
            )
      ];
      others =
          λ v ne. d.others v (λ e. ne (inr (omega (arith, e)))) ∙ before.others v (λ p. ne (inl p));
      regions = d.regions ∙ before.regions;
      next = let le = d.next in let le' = before.next in omega arith;
      same_memory = d.same_memory ∙ before.same_memory;
    }
    joined_lem (err e, s'') before d = record {
      others = λ v ne. d.others v ∙ before.others v (λ p. ne (inl p));
      same_memory = d.same_memory ∙ before.same_memory;
    }

  next_lem :
      (P : ℕ → Type 0) (s : State m) (r : Result (Unit {0}) Bytes × State m)
      (f : State m → Result (Unit {0}) Bytes × State m)
      → ¬ P q
      → Done m P s r
      → ((s' : State m) → PageDone m (q * 4096) present_writable_user s' (f s'))
      → Done m (λ x. P x ⊎ (x ≡ q)) s (and_then r f)
  next_lem P s (ok t, s') f new before d = joined_lem P new s s' (f s') before (d s')
  next_lem P s (err e, s') f new before d = record {
    others = λ v ne. before.others v (λ p. ne (inl p));
    same_memory = before.same_memory;
  }

-- The code page and the two pages of the stack, by their numbers.
abbrev UserPage : ℕ → Type 0
UserPage x = ((x ≡ 0x6666_0000_0) ⊎ (x ≡ 0x6666_0000_8)) ⊎ (x ≡ 0x6666_0000_9)

map_user_pages_lem :
    (m : Mapper) (law : IsMapper m) (s : State m) → Done m UserPage s (map_user_pages m s)
map_user_pages_lem m law s =
    let code = map_page_with_flags m s user_code_start present_writable_user in
    let stack = λ (s' : State m). map_page_with_flags m s' user_stack_start present_writable_user in
    let code_done =
      first_lem m 0x6666_0000_0 s code
        (map_page_with_flags_lem m s user_code_start present_writable_user law) in
    let stack_done =
      next_lem m 0x6666_0000_8 (λ x. x ≡ 0x6666_0000_0) s code stack (λ e. omega arith) code_done
        (λ s'. map_page_with_flags_lem m s' user_stack_start present_writable_user law) in
    next_lem m 0x6666_0000_9 (λ x. (x ≡ 0x6666_0000_0) ⊎ (x ≡ 0x6666_0000_8)) s
      (and_then code stack)
      (λ s'. map_page_with_flags m s' (user_stack_start + 0x1000) present_writable_user)
      (elim [ inl e ↦ omega arith | inr e ↦ omega arith ]) stack_done
      (λ s'. map_page_with_flags_lem m s' (user_stack_start + 0x1000) present_writable_user law)

abbrev demo_context : UserModeContext
demo_context = record { entry = 0x6666_0000_0000; stack_top = 0x6666_0000_a000 }

abbrev Ready :
    (m : Mapper) → State m → Session → ℕ → ℕ → Result (Unit {0}) Bytes × State m × Session → Type 0
Ready m s u v o (ok t, s', u') =
    (u' ≡ record u { context = some demo_context })
    × (m.translate_addr s.pages (page_of v) ≡ none)
    × BackedByFrame m s.allocator.memory_regions s' v
    × (m.flags_of s'.pages v ≡ some 7)
    × (m.translate_addr s'.pages o ≡ m.translate_addr s.pages o)
    × Holds s'.memory 0x6666_0000_0000 user_int_demo_code
Ready m s u v o (err e, s', u') =
    (u' ≡ u)
    × Refused u' s'.memory
    × (m.translate_addr s'.pages o ≡ m.translate_addr s.pages o)
    × (s'.memory ≡ s.memory)

ready_lem :
    (m : Mapper) (s : State m) (u : Session) (v o : ℕ) (r : Result (Unit {0}) Bytes × State m)
    → IsMap s.allocator.memory_regions
    → u.context ≡ none
    → UserPage (v / 4096)
    → ¬ UserPage (o / 4096)
    → Done m UserPage s r
    → Ready m s u v o (set_context m u r)
ready_lem m s u v o (ok t, s') map e user other d =
    let (free, b, flagged) = d.mapped v user in
    let rs = s.allocator.memory_regions in
    let (inside, distinct) = usable_frames-Inside rs map in
    (
      refl,
      free,
      (
        b.frame,
        All-nth (InsideSome rs) (usable_frames rs) b.index b.frame inside b.taken,
        b.translated,
      ),
      flagged,
      d.others o other,
      demo_text-Holds user_int_demo_code s'.memory,
    )
ready_lem m s u v o (err e, s') map none_yet user other d =
    (refl, none-Refused u s'.memory none_yet, d.others o other, d.same_memory)

-- If the memory map is made of whole frames that do not overlap, and user mode is not set up yet: when
-- `init_memory` succeeds, the context is the start of the code page and the end of the stack, every
-- address of the code page and of the two pages of the stack was free before and is now backed by a
-- frame of usable memory, present, writable and accessible to user mode, and the code of the first
-- demo stands at the entry. When it fails, no byte is written, and the start of each demo is still
-- refused. In both cases an address of another page translates as before.
pub init_memory_lem :
    (m : Mapper) (law : IsMapper m) (s : State m) (u : Session) (v o : ℕ)
    → IsMap s.allocator.memory_regions
    → u.context ≡ none
    → UserPage (v / 4096)
    → ¬ UserPage (o / 4096)
    → Ready m s u v o (init_memory m s u)
unfolding init_memory
init_memory_lem m law s u v o map none_yet user other =
    ready_lem m s u v o (map_user_pages m s) map none_yet user other (map_user_pages_lem m law s)
