-- ===== src/Recall/Ages.antt =====
-- kernel/src/main.rs: the lines of the history by their age.
use jing_os.Base.{
  ℕ, zero, suc, ◌+◌, ◌%◌, ◌≤◌, ◌<◌, ◌≡◌, ◌≢◌, refl, ap, min, false, none, some, List, [], ◌∷◌, leb,
  if◌then◌else◌, length, set, take, get_or-set_ne, length-take, Bytes, arith,
}
use jing_os.Line.Buffer.{InputLine, copy_at}
use jing_os.Line.Slices.{bytes_ext, get_or-take}
use jing_os.Line.Shifts.{get_or-copy_at, length-copy_at}
use jing_os.Recall.Ring.{
  HistoryEntry, CommandHistory, blank, as_str, index_of, entry_at, set_from_line,
}
use jing_os.Recall.Spec.{nth}

-- The lines of `n` ages from `age` on.
abbrev pub lines_from : CommandHistory → ℕ → ℕ → List Bytes
lines_from h age zero = []
lines_from h age (suc n) = as_str (entry_at h age) ∷ lines_from h (suc age) n

pub length-lines_from : (h : CommandHistory) (age n : ℕ) → length (lines_from h age n) ≡ n
length-lines_from h age zero = refl
length-lines_from h age (suc n) = ap suc (length-lines_from h (suc age) n)

pub take-lines_from :
    (h : CommandHistory) (m age n : ℕ) → take m (lines_from h age n) ≡ lines_from h age (min m n)
take-lines_from h zero age n = let e : min 0 n ≡ 0 = omega arith in rw e refl
take-lines_from h (suc m) age zero = let e : min (suc m) 0 ≡ 0 = omega arith in rw e refl
take-lines_from h (suc m) age (suc n) =
    let e : min (suc m) (suc n) ≡ suc (min m n) = omega arith in
    rw (e, take-lines_from h m (suc age) n) refl

pub nth-lines_from :
    (h : CommandHistory) (age n i : ℕ)
    → nth (lines_from h age n) i ≡ (if leb n i then none else some (as_str (entry_at h (age + i))))
nth-lines_from h age zero i = ground arith
nth-lines_from h age (suc n) zero =
    let e : leb (suc n) 0 ≡ false = ground arith in
    let e' : age + 0 ≡ age = omega arith in rw (e, e') refl
nth-lines_from h age (suc n) (suc i) =
    let e : leb (suc n) (suc i) ≡ leb n i = ground arith in
    let e' : age + suc i ≡ suc age + i = omega arith in rw (e, e') (nth-lines_from h (suc age) n i)

-- The slots: the newest line is in the one before `next_insert`, and an insertion makes every other
-- line one older.
pub index_of-zero : (ni : ℕ) → ni < 16 → index_of ((ni + 1) % 16) 0 ≡ ni
index_of-zero ni h = omega arith

pub index_of-older :
    (ni age : ℕ) → ni < 16 → age < 15 → index_of ((ni + 1) % 16) (suc age) ≡ index_of ni age
index_of-older ni age h h' = omega arith

pub index_of-ne : (ni age : ℕ) → ni < 16 → age < 15 → ni ≢ index_of ni age
index_of-ne ni age h h' e = omega arith

pub index_of_lt : (ni age : ℕ) → index_of ni age < 16
index_of_lt ni age = omega arith

-- After an insertion the newest line is the new one, and the others are one older.
pub lines_from-insert :
    (h h' : CommandHistory) (e : HistoryEntry) (age n : ℕ)
    → h.next_insert < 16
    → h'.entries ≡ set h.entries h.next_insert e
    → h'.next_insert ≡ (h.next_insert + 1) % 16
    → age + n < 16
    → lines_from h' (suc age) n ≡ lines_from h age n
lines_from-insert h h' e age zero a b c d = refl
lines_from-insert h h' e age (suc n) a b c d =
    rw
      (
        lines_from-insert h h' e (suc age) n a b c (omega arith),
        b,
        c,
        index_of-older h.next_insert age a (omega arith),
        get_or-set_ne h.entries e blank (index_of-ne h.next_insert age a (omega arith)),
      )
      refl

-- The entry that is set from a line has the line's text.
pub set_from_line_text :
    (l : InputLine) (e : HistoryEntry)
    → l.len ≤ length l.bytes
    → l.len ≤ length e.bytes
    → as_str (set_from_line l e) ≡ take l.len l.bytes
set_from_line_text l e h h' =
    let s = take l.len l.bytes in
    let size : length s ≡ l.len = omega (arith, length-take l.len l.bytes) in
    let b = copy_at 0 s e.bytes in
    bytes_ext (take l.len b) s (omega (arith, length-take l.len b, length-copy_at 0 s e.bytes))
      (λ i q.
        let q' : i < l.len = omega (arith, length-take l.len b, length-copy_at 0 s e.bytes) in
        rw (get_or-take l.len b i q', get_or-copy_at 0 s e.bytes i (omega arith)) (ground arith))
