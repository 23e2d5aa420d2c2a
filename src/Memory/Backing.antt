-- ===== src/Memory/Backing.antt =====
-- kernel/src/heap.rs: what the loop of `init_heap` does to the page tables.
use jing_os.Base.{
  ℕ, zero, suc, ◌+◌, ◌*◌, ◌/◌, ◌%◌, ◌≤◌, ◌<◌, ◌≡◌, ◌≢◌, refl, sym, ap, ◌⊎◌, inl, inr, some, List,
  [], ◌∷◌, ◌==◌, if◌then◌else◌, arith, Result, ok, err,
}
use jing_os.Memory.Region.{MemoryRegion}
use jing_os.Memory.Frames.{usable_frames, BootInfoFrameAllocator, nth}
use jing_os.Memory.Inside.{All, Distinct, InsideSome}
use jing_os.Memory.Mapper.{MapToError, Mapper, Kept, State}
use jing_os.Memory.Heap.{after_map_to}

pub All-nth : (P : ℕ → Type 0) (fs : List ℕ) (k f : ℕ) → All P fs → nth fs k ≡ some f → P f
All-nth P [] k f a e = ground (arith, e)
All-nth P (g ∷ fs) zero f (a, rest) e = let e' : g ≡ f = ground (arith, e) in rw (sym e') a
All-nth P (g ∷ fs) (suc k) f (a, rest) e = All-nth P fs k f rest e

pub Distinct-nth :
    (fs : List ℕ) (i j f g : ℕ)
    → Distinct fs
    → i < j
    → nth fs i ≡ some f
    → nth fs j ≡ some g
    → f ≢ g
Distinct-nth [] i j f g d h e e' = ground (arith, e)
Distinct-nth (x ∷ fs) zero zero f g d h e e' = absurd (omega arith)
Distinct-nth (x ∷ fs) zero (suc j) f g (d, rest) h e e' =
    let x-f : x ≡ f = ground (arith, e) in rw (sym x-f) (All-nth (λ y. x ≢ y) fs j g d e')
Distinct-nth (x ∷ fs) (suc i) zero f g d h e e' = absurd (omega arith)
Distinct-nth (x ∷ fs) (suc i) (suc j) f g (d, rest) h e e' =
    Distinct-nth fs i j f g rest (omega arith) e e'

-- A usable frame starts at a multiple of 4096.
pub some-aligned : (rs : List MemoryRegion) (f : ℕ) → InsideSome rs f → f % 4096 ≡ 0
some-aligned [] f i = absurd i
some-aligned (r ∷ rs) f (inl i) = i.aligned
some-aligned (r ∷ rs) f (inr i) = some-aligned rs f i

-- The frame with an index backs an address.
pub record Backed (m : Mapper) (rs : List MemoryRegion) (s : State m) (low v : ℕ) : Type 0 where
  pub index : ℕ
  pub frame : ℕ
  pub above : low ≤ index
  pub taken : nth (usable_frames rs) index ≡ some frame
  pub translated : m.translate_addr s.pages v ≡ some (frame + v % 4096)

-- `n` pages from one on, mapped to new frames.
pub record Mapped (m : Mapper) (rs : List MemoryRegion) (n page : ℕ) (s s' : State m) : Type 0 where
  pub backed : (v : ℕ) → page ≤ v → v < page + n * 4096 → Backed m rs s' s.allocator.next v
  pub apart :
      (v w : ℕ)
      → page ≤ v
      → v < page + n * 4096
      → page ≤ w
      → w < page + n * 4096
      → m.translate_addr s'.pages v ≡ m.translate_addr s'.pages w
      → v ≡ w
  pub others :
      (v : ℕ)
      → (v < page) ⊎ (page + n * 4096 ≤ v)
      → m.translate_addr s'.pages v ≡ m.translate_addr s.pages v
  pub heap : s'.heap ≡ s.heap

-- Some of them mapped, when an error ends the loop.
pub record Stopped (m : Mapper) (n page : ℕ) (s s' : State m) : Type 0 where
  pub others :
      (v : ℕ)
      → (v < page) ⊎ (page + n * 4096 ≤ v)
      → m.translate_addr s'.pages v ≡ m.translate_addr s.pages v
  pub heap : s'.heap ≡ s.heap

abbrev pub Loop :
    (m : Mapper)
    → List MemoryRegion
    → ℕ
    → ℕ
    → State m
    → Result (Unit {0}) MapToError × State m
    → Type 0
Loop m rs n page s (ok u, s') = Mapped m rs n page s s'
Loop m rs n page s (err e, s') = Stopped m n page s s'

-- One turn: the page is mapped to a frame, or no translation changes.
pub record Turned (m : Mapper) (page frame : ℕ) (s s' : State m) : Type 0 where
  pub translated :
      (v : ℕ)
      → m.translate_addr s'.pages v
        ≡ (if v / 4096 == page / 4096 then some (frame + v % 4096) else m.translate_addr s.pages v)
  pub regions : s'.allocator.memory_regions ≡ s.allocator.memory_regions
  pub next : s.allocator.next < s'.allocator.next
  pub heap : s'.heap ≡ s.heap

abbrev pub Turn : (m : Mapper) → ℕ → ℕ → State m → Result (Unit {0}) MapToError × State m → Type 0
Turn m page frame s (ok u, s') = Turned m page frame s s'
Turn m page frame s (err e, s') = Stopped m 1 page s s'

pub turn_lem :
    (m : Mapper) (s : State m) (page frame flags : ℕ)
    (r : Result (Unit {0}) MapToError × m.Pages × BootInfoFrameAllocator)
    → Kept m s.pages page frame flags (record s.allocator { next = s.allocator.next + 1 }) r
    → Turn m page frame s (after_map_to m s r)
turn_lem m s page frame flags (ok u, pages, a) (t, g, (k, e)) = record {
  translated = t;
  regions = ap (λ x. x.memory_regions) e;
  next = omega (arith, ap (λ x. x.next) e);
  heap = refl;
}
turn_lem m s page frame flags (err e, pages, a) (t, g, k) = record {
  others = λ v h. t v;
  heap = refl;
}
