-- ===== src/Line/Shifts.antt =====
-- The copying loops of kernel/src/main.rs's `InputLine`, byte by byte.
use jing_os.Base.{
  ℕ, zero, suc, ◌+◌, ◌-◌, ◌≤◌, ◌<◌, ◌≡◌, refl, [], ◌∷◌, ltb, leb, ◌&&◌, if◌then◌else◌, length,
  get_or, set, length-set, Bytes, arith,
}
use jing_os.Line.Buffer.{shift_up, shift_down, copy_at}
use jing_os.Line.Slices.{get_or-set, get_or-cons}

pub length-shift_up :
    (by start count : ℕ) (b : Bytes) → length (shift_up by start count b) ≡ length b
length-shift_up by start zero b = refl
length-shift_up by start (suc k) b =
    rw (length-shift_up by start k (set b (start + k + by) (get_or b (start + k) 0)))
      (length-set b (start + k + by) (get_or b (start + k) 0))

pub length-shift_down :
    (by start count : ℕ) (b : Bytes) → length (shift_down by start count b) ≡ length b
length-shift_down by start zero b = refl
length-shift_down by start (suc k) b =
    rw (length-shift_down by (suc start) k (set b (start - by) (get_or b start 0)))
      (length-set b (start - by) (get_or b start 0))

pub length-copy_at : (at : ℕ) (cs b : Bytes) → length (copy_at at cs b) ≡ length b
length-copy_at at [] b = refl
length-copy_at at (c ∷ cs) b = rw (length-copy_at (suc at) cs (set b at c)) (length-set b at c)

pub get_or-shift_up :
    (by start count : ℕ) (b : Bytes) (i : ℕ)
    → start + count + by ≤ length b
    → get_or (shift_up by start count b) i 0 ≡ (
        if leb (start + by) i && ltb i (start + count + by)
        then get_or b (i - by) 0
        else get_or b i 0)
get_or-shift_up by start zero b i h = ground arith
get_or-shift_up by start (suc k) b i h =
    let q = start + k + by in
    let v = get_or b (start + k) 0 in
    let ih = get_or-shift_up by start k (set b q v) i (omega (arith, length-set b q v)) in
    rw (ih, get_or-set b q v i, get_or-set b q v (i - by)) (ground arith)

pub get_or-shift_down :
    (by start count : ℕ) (b : Bytes) (i : ℕ)
    → 0 < by
    → by ≤ start
    → start + count ≤ length b
    → get_or (shift_down by start count b) i 0 ≡ (
        if leb (start - by) i && ltb i (start + count - by)
        then get_or b (i + by) 0
        else get_or b i 0)
get_or-shift_down by start zero b i p h' h = ground arith
get_or-shift_down by start (suc k) b i p h' h =
    let q = start - by in
    let v = get_or b start 0 in
    let ih =
      get_or-shift_down by (suc start) k (set b q v) i p (omega arith)
        (omega (arith, length-set b q v)) in
    rw (ih, get_or-set b q v i, get_or-set b q v (i + by)) (ground arith)

pub get_or-copy_at :
    (at : ℕ) (cs b : Bytes) (i : ℕ)
    → at + length cs ≤ length b
    → get_or (copy_at at cs b) i 0
      ≡ (if leb at i && ltb i (at + length cs) then get_or cs (i - at) 0 else get_or b i 0)
get_or-copy_at at [] b i h = ground arith
get_or-copy_at at (c ∷ cs) b i h =
    let ih = get_or-copy_at (suc at) cs (set b at c) i (omega (arith, length-set b at c)) in
    rw (ih, get_or-set b at c i, get_or-cons c cs (i - at)) (ground arith)
