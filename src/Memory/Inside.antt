-- ===== src/Memory/Inside.antt =====
-- kernel/src/memory.rs: which frames the memory map has for the allocator.
use jing_os.Base.{
  ap, ◌∙◌, false, ℕ, zero, suc, ◌+◌, ◌-◌, ◌*◌, ◌/◌, ◌%◌, ◌≤◌, ◌<◌, ◌≡◌, ◌≢◌, max, ◌⊎◌, inl, inr,
  true, some, List, [], ◌∷◌, ◌++◌, leb, take, arith, Bool-cases,
}
use jing_os.Memory.Region.{MemoryRegion, is_usable}
use jing_os.Memory.Frames.{
  min_allocatable_phys_addr, frame_size, stepped, containing_address, frames_from, region_frames,
  usable_frames, nth,
}

-- A property of every frame of a list.
abbrev pub All : (ℕ → Type 0) → List ℕ → Type 0
All P [] = Unit {0}
All P (f ∷ fs) = P f × All P fs

-- No frame stands twice.
abbrev pub Distinct : List ℕ → Type 0
Distinct [] = Unit {0}
Distinct (f ∷ fs) = All (λ g. f ≢ g) fs × Distinct fs

-- A region that starts and ends with a frame.
abbrev pub Aligned : MemoryRegion → Type 0
Aligned r = (r.start % 4096 ≡ 0) × (r.end % 4096 ≡ 0)

abbrev pub Apart : MemoryRegion → MemoryRegion → Type 0
Apart r s = (r.end ≤ s.start) ⊎ (s.end ≤ r.start)

abbrev pub AllRegions : (MemoryRegion → Type 0) → List MemoryRegion → Type 0
AllRegions P [] = Unit {0}
AllRegions P (r ∷ rs) = P r × AllRegions P rs

-- A memory map whose regions are made of whole frames and do not overlap.
abbrev pub IsMap : List MemoryRegion → Type 0
IsMap [] = Unit {0}
IsMap (r ∷ rs) = Aligned r × AllRegions (Apart r) rs × IsMap rs

-- A frame that lies, whole, in a usable region and above the first megabyte.
pub record Inside (r : MemoryRegion) (f : ℕ) : Type 0 where
  pub free : is_usable r ≡ true
  pub aligned : f % 4096 ≡ 0
  pub above : min_allocatable_phys_addr ≤ f
  pub low : r.start ≤ f
  pub high : f + frame_size ≤ r.end

-- A frame inside some region of a map.
abbrev pub InsideSome : List MemoryRegion → ℕ → Type 0
InsideSome [] f = ⊥
InsideSome (r ∷ rs) f = Inside r f ⊎ InsideSome rs f

module _ {P Q : ℕ → Type 0} where
  All-map : ((f : ℕ) → P f → Q f) → (fs : List ℕ) → All P fs → All Q fs
  All-map h [] v = v
  All-map h (f ∷ fs) (v, vs) = (h f v, All-map h fs vs)

All-append : (P : ℕ → Type 0) (fs gs : List ℕ) → All P fs → All P gs → All P (fs ++ gs)
All-append P [] gs v w = w
All-append P (f ∷ fs) gs (v, vs) w = (v, All-append P fs gs vs w)

pub All-take : (P : ℕ → Type 0) (n : ℕ) (fs : List ℕ) → All P fs → All P (take n fs)
All-take P zero fs v = tt
All-take P (suc n) [] v = tt
All-take P (suc n) (f ∷ fs) (v, vs) = (v, All-take P n fs vs)

pub Distinct-take : (n : ℕ) (fs : List ℕ) → Distinct fs → Distinct (take n fs)
Distinct-take zero fs v = tt
Distinct-take (suc n) [] v = tt
Distinct-take (suc n) (f ∷ fs) (v, vs) = (All-take (λ g. f ≢ g) n fs v, Distinct-take n fs vs)

Distinct-append :
    (fs gs : List ℕ)
    → Distinct fs
    → Distinct gs
    → All (λ f. All (λ g. f ≢ g) gs) fs
    → Distinct (fs ++ gs)
Distinct-append [] gs v w h = w
Distinct-append (f ∷ fs) gs (v, vs) w (h, hs) =
    (All-append (λ g. f ≢ g) fs gs v h, Distinct-append fs gs vs w hs)

-- The frames of a region from one of its addresses on.
frames_at : ℕ → ℕ → List ℕ
frames_at start n = frames_from (stepped start n)

frames_at-Inside :
    (r : MemoryRegion) (start n : ℕ)
    → is_usable r ≡ true
    → start % 4096 ≡ 0
    → min_allocatable_phys_addr ≤ start
    → r.start ≤ start
    → start + n * 4096 ≤ r.end
    → All (Inside r) (frames_at start n)
unfolding frames_at
frames_at-Inside r start zero u a m l h = tt
frames_at-Inside r start (suc n) u a m l h =
    let e : containing_address start ≡ start = omega arith in
    rw e (
      record { free = u; aligned = a; above = m; low = l; high = omega arith },
      frames_at-Inside r (start + 4096) n u (omega arith) (omega arith) (omega arith) (omega arith),
    )

frames_at-above :
    (start n f : ℕ) → f < start → start % 4096 ≡ 0 → All (λ g. f ≢ g) (frames_at start n)
unfolding frames_at
frames_at-above start zero f h a = tt
frames_at-above start (suc n) f h a =
    let e : containing_address start ≡ start = omega arith in
    rw e ((λ q. omega arith), frames_at-above (start + 4096) n f (omega arith) (omega arith))

frames_at-Distinct : (start n : ℕ) → start % 4096 ≡ 0 → Distinct (frames_at start n)
unfolding frames_at
frames_at-Distinct start zero a = tt
frames_at-Distinct start (suc n) a =
    let e : containing_address start ≡ start = omega arith in
    rw e (
      frames_at-above (start + 4096) n start (omega arith) (omega arith),
      frames_at-Distinct (start + 4096) n (omega arith),
    )

region_frames-Inside :
    (r : MemoryRegion) → Aligned r → All (Inside r) (region_frames r) × Distinct (region_frames r)
unfolding region_frames frames_at
region_frames-Inside r (a, b) = elim (Bool-cases (is_usable r)) [
  | inr e ↦ rw e (tt, tt)
  | inl e ↦
      let start = max r.start 0x10_0000 in
      elim (Bool-cases (leb r.end start)) [
        | inl f ↦ rw (e, f) (tt, tt)
        | inr f ↦
            let open_end : start < r.end = ground arith in
            let a' : start % 4096 ≡ 0 = omega arith in
            let n = (r.end - start + 4095) / 4096 in
            rw (e, f)
              (
                frames_at-Inside r start n e a' (omega arith) (omega arith) (omega arith),
                frames_at-Distinct start n a',
              )
      ]
]

Apart-ne : (r s : MemoryRegion) (f g : ℕ) → Apart r s → Inside r f → Inside s g → f ≢ g
Apart-ne r s f g (inl a) v w e = omega (arith, v.high, w.low)
Apart-ne r s f g (inr a) v w e = omega (arith, v.low, w.high)

Apart-some :
    (r : MemoryRegion) (rs : List MemoryRegion) (f g : ℕ)
    → AllRegions (Apart r) rs
    → Inside r f
    → InsideSome rs g
    → f ≢ g
Apart-some r [] f g a v w = absurd w
Apart-some r (s ∷ rs) f g (a, rest) v (inl w) = Apart-ne r s f g a v w
Apart-some r (s ∷ rs) f g (a, rest) v (inr w) = Apart-some r rs f g rest v w

pub usable_frames-Inside :
    (rs : List MemoryRegion)
    → IsMap rs
    → All (InsideSome rs) (usable_frames rs) × Distinct (usable_frames rs)
unfolding usable_frames
usable_frames-Inside [] m = (tt, tt)
usable_frames-Inside (r ∷ rs) (a, apart, m) =
    let (inside, distinct) = region_frames-Inside r a in
    let (inside', distinct') = usable_frames-Inside rs m in
    (
      All-append (InsideSome (r ∷ rs)) (region_frames r) (usable_frames rs)
          (All-map (λ f v. inl v) (region_frames r) inside)
          (All-map (λ f v. inr v) (usable_frames rs) inside'),
      Distinct-append (region_frames r) (usable_frames rs) distinct distinct' (
          All-map (λ f v. All-map (λ g w. Apart-some r rs f g apart v w) (usable_frames rs) inside')
            (region_frames r) inside),
    )

-- A frame stands in a list.
abbrev pub Among : ℕ → List ℕ → Type 0
Among f fs = (i : ℕ) × (nth fs i ≡ some f)

Among-append_left : (f : ℕ) (fs gs : List ℕ) → Among f fs → Among f (fs ++ gs)
Among-append_left f [] gs (i, e) = cc
Among-append_left f (g ∷ fs) gs (zero, e) = (0, e)
Among-append_left f (g ∷ fs) gs (suc i, e) =
    let (j, e') = Among-append_left f fs gs (i, e) in (suc j, e')

Among-append_right : (f : ℕ) (fs gs : List ℕ) → Among f gs → Among f (fs ++ gs)
Among-append_right f [] gs a = a
Among-append_right f (g ∷ fs) gs a = let (j, e) = Among-append_right f fs gs a in (suc j, e)

frames_at-Among :
    (start n i : ℕ) → start % 4096 ≡ 0 → i < n → Among (start + i * 4096) (frames_at start n)
unfolding frames_at
frames_at-Among start zero i a h = absurd (omega arith)
frames_at-Among start (suc n) zero a h =
    let e : containing_address start ≡ start + 0 * 4096 = omega arith in (0, ap some e)
frames_at-Among start (suc n) (suc i) a h =
    let (j, e) = frames_at-Among (start + 4096) n i (omega arith) (omega arith) in
    let same : start + 4096 + i * 4096 ≡ start + suc i * 4096 = omega arith in
    (suc j, e ∙ ap some same)

region_frames-Among :
    (r : MemoryRegion) (f : ℕ) → Inside r f → Aligned r → Among f (region_frames r)
unfolding region_frames frames_at
region_frames-Among r f v (a, b) =
    let start = max r.start 0x10_0000 in
    let low = v.low in
    let high = v.high in
    let above = v.above in
    let a' : start % 4096 ≡ 0 = omega arith in
    let open_end : leb r.end start ≡ false = ground (arith, low, high, above) in
    let i = (f - start) / 4096 in
    let at =
      frames_at-Among start ((r.end - start + 4095) / 4096) i a'
        (let al = v.aligned in omega arith) in
    let same : start + i * 4096 ≡ f = let al = v.aligned in omega arith in
    rw (v.free, open_end) (rw same at at)

pub usable_frames-Among :
    (rs : List MemoryRegion) (f : ℕ) → IsMap rs → InsideSome rs f → Among f (usable_frames rs)
unfolding usable_frames
usable_frames-Among [] f m v = absurd v
usable_frames-Among (r ∷ rs) f (a, apart, m) (inl v) =
    Among-append_left f (region_frames r) (usable_frames rs) (region_frames-Among r f v a)
usable_frames-Among (r ∷ rs) f (a, apart, m) (inr v) =
    Among-append_right f (region_frames r) (usable_frames rs) (usable_frames-Among rs f m v)
