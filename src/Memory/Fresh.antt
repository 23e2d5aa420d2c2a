-- ===== src/Memory/Fresh.antt =====
-- kernel/src/memory.rs: what the frame allocator hands out.
use jing_os.Base.{
  ℕ, zero, suc, ◌+◌, ◌-◌, ◌≡◌, refl, min, Option, none, some, List, [], ◌∷◌, length, length-take,
  length-drop, take, drop, arith,
}
use jing_os.Memory.Region.{MemoryRegion}
use jing_os.Memory.Frames.{
  usable_frames, BootInfoFrameAllocator, init, nth, remaining_usable_frames_estimate,
  allocate_frame,
}
use jing_os.Memory.Inside.{
  All, Distinct, IsMap, InsideSome, All-take, Distinct-take, usable_frames-Inside, Among,
  usable_frames-Among,
}

abbrev put_frame : Option ℕ → List ℕ → List ℕ
put_frame none fs = fs
put_frame (some f) fs = f ∷ fs

-- The frames that a number of calls in a row hand out, and the allocator after them.
abbrev pub allocate_times : ℕ → BootInfoFrameAllocator → List ℕ × BootInfoFrameAllocator
allocate_times zero a = ([], a)
allocate_times (suc n) a =
    let (f, a') = allocate_frame a in let (fs, last) = allocate_times n a' in (put_frame f fs, last)

take_nil : (n : ℕ) → take {A = ℕ} n [] ≡ []
take_nil zero = refl
take_nil (suc n) = refl

take-drop-suc :
    (n k : ℕ) (xs : List ℕ)
    → put_frame (nth xs k) (take n (drop (suc k) xs)) ≡ take (suc n) (drop k xs)
take-drop-suc n zero [] = take_nil n
take-drop-suc n (suc k) [] = take_nil n
take-drop-suc n zero (x ∷ xs) = refl
take-drop-suc n (suc k) (x ∷ xs) = take-drop-suc n k xs

allocate_times_lem :
    (n : ℕ) (a : BootInfoFrameAllocator)
    → allocate_times n a
      ≡ (take n (drop a.next (usable_frames a.memory_regions)), record a { next = a.next + n })
unfolding allocate_frame
allocate_times_lem zero a = let e : a.next + 0 ≡ a.next = omega arith in rw e refl
allocate_times_lem (suc n) a =
    let frames = usable_frames a.memory_regions in
    let e : suc a.next + n ≡ a.next + suc n = omega arith in
    let e' : a.next + 1 ≡ suc a.next = omega arith in
    rw
      (
        allocate_times,
        e',
        allocate_times_lem n (record a { next = suc a.next }),
        e,
        take-drop-suc n a.next frames,
      )
      refl

-- Of a memory map whose regions are made of whole frames and do not overlap, any number of calls
-- from a fresh allocator hand out frames of which no two are the same, each whole in a usable region
-- and above the first megabyte; each call hands one out until there are none left, and the estimate
-- of the remaining frames is the number that further calls will hand out. Every such frame is among those
-- that the allocator goes through.
pub frames_are_fresh :
    (n : ℕ) (rs : List MemoryRegion)
    → IsMap rs
    → let (frames, after) = allocate_times n (init rs) in
      All (InsideSome rs) frames
      × Distinct frames
      × (length frames ≡ min n (length (usable_frames rs)))
      × (remaining_usable_frames_estimate after ≡ length (usable_frames rs) - length frames)
      × ((f : ℕ) → InsideSome rs f → Among f (usable_frames rs))
frames_are_fresh n rs m =
    let (inside, distinct) = usable_frames-Inside rs m in
    let e : 0 + n ≡ n = omega arith in
    let fs = usable_frames rs in
    rw (allocate_times_lem n (init rs), e)
      (
        All-take (InsideSome rs) n fs inside,
        Distinct-take n fs distinct,
        length-take n fs,
        omega (arith, length-take n fs, length-drop n fs),
        λ f. usable_frames-Among rs f m,
      )
