-- ===== src/Line/Words.antt =====
-- kernel/src/main.rs: the word boundaries of the input line, which the code finds by scanning the
-- buffer, and the specification by skipping a word of the text.
use jing_os.Base.{
  ℕ, zero, suc, ◌+◌, ◌-◌, ◌≤◌, ◌<◌, ◌≡◌, refl, ap, ◌∙◌, ◌⊎◌, min, Bool, true, false, [], ◌∷◌, leb,
  ◌==◌, if◌then◌else◌, length, get_or, take, drop, length-take, length-drop, Bytes, arith,
  Bool-cases, inl, inr,
}
use jing_os.Line.Buffer.{
  InputLine, scan_back, scan_on, is_whitespace, is_word_byte, is_other, previous_word_boundary,
  next_word_boundary,
}
use jing_os.Line.Slices.{bytes_ext, get_or-take, get_or-drop}
use jing_os.Line.Spec.{skip, past_word, before, word_left, word_right}
use jing_os.Line.Edits.{IsValid, view, length-view}

length-before : (n : ℕ) (b : Bytes) → length (before n b) ≡ n
length-before zero b = refl
length-before (suc n) b = ap suc (length-before n b)

before-take : (n m : ℕ) (b : Bytes) → n ≤ m → before n (take m b) ≡ before n b
before-take zero m b h = refl
before-take (suc n) m b h =
    rw (get_or-take m b n (omega arith), before-take n m b (omega arith)) refl

skip-before : (p : ℕ → Bool) (n : ℕ) (b : Bytes) → skip p (before n b) ≡ before (scan_back p b n) b
skip-before p zero b = refl
skip-before p (suc n) b = elim (Bool-cases (p (get_or b n 0))) [
  | inl e ↦ rw (skip, before, scan_back, e) (skip-before p n b)
  | inr e ↦ rw (skip, before, scan_back, e) refl
]

scan_back_le : (p : ℕ → Bool) (b : Bytes) (n : ℕ) → scan_back p b n ≤ n
scan_back_le p b zero = omega arith
scan_back_le p b (suc n) = elim (Bool-cases (p (get_or b n 0))) [
  | inl e ↦ rw e (omega (arith, scan_back_le p b n))
  | inr e ↦ rw e (omega arith)
]

-- Every byte is a blank, a part of a word, or neither, and only one of these.
byte_kinds :
    (x : ℕ)
    → ((is_other x ≡ true) × (is_whitespace x ≡ false) × (is_word_byte x ≡ false))
      ⊎ (((is_other x ≡ false) × (is_whitespace x ≡ true))
          ⊎ ((is_other x ≡ false) × (is_whitespace x ≡ false) × (is_word_byte x ≡ true)))
byte_kinds x = ground arith

module _ (p : ℕ → Bool) (b : Bytes) (n : ℕ) where
  scan_back-on : p (get_or b n 0) ≡ true → scan_back p b (suc n) ≡ scan_back p b n
  scan_back-on e = rw e refl

  scan_back-stop : p (get_or b n 0) ≡ false → scan_back p b (suc n) ≡ suc n
  scan_back-stop e = rw e refl

module _ (x : ℕ) (xs : Bytes) where
  past_word-other : is_other x ≡ true → past_word (x ∷ xs) ≡ skip is_other xs
  past_word-other o = rw (past_word, o) refl

  past_word-blank :
      is_other x ≡ false
      → is_whitespace x ≡ true
      → past_word (x ∷ xs) ≡ skip is_word_byte (skip is_whitespace xs)
  past_word-blank o w = rw (past_word, o, skip, w) refl

  past_word-word :
      is_other x ≡ false
      → is_whitespace x ≡ false
      → is_word_byte x ≡ true
      → past_word (x ∷ xs) ≡ skip is_word_byte xs
  past_word-word o w a = rw (past_word, o, skip, w, skip, a) refl

-- The scans of `previous_word_boundary` from a cursor that is not at the start.
scanned_back : Bytes → ℕ → ℕ
scanned_back b c =
    let position = scan_back is_word_byte b (scan_back is_whitespace b c) in
    let position' = if position == c then scan_back is_other b position else position in
    if position' == c then position' - 1 else position'

scanned_back_lem :
    (b : Bytes) (n : ℕ) → scanned_back b (suc n) ≡ length (past_word (before (suc n) b))
unfolding scanned_back
scanned_back_lem b n = elim (byte_kinds (get_or b n 0)) [
  | inl (o, w, a) ↦
      let s = scan_back_le is_other b n in
      rw
        (
          past_word-other (get_or b n 0) (before n b) o,
          skip-before is_other n b,
          length-before (scan_back is_other b n) b,
          scan_back-stop is_whitespace b n w,
          scan_back-stop is_word_byte b n a,
          scan_back-on is_other b n o,
        )
        (ground (arith, s))
  | inr (inl (o, w)) ↦
      let m = scan_back is_whitespace b n in
      let s = scan_back_le is_whitespace b n in
      let s' = scan_back_le is_word_byte b m in
      rw
        (
          past_word-blank (get_or b n 0) (before n b) o w,
          skip-before is_whitespace n b,
          skip-before is_word_byte m b,
          length-before (scan_back is_word_byte b m) b,
          scan_back-on is_whitespace b n w,
        )
        (ground (arith, s, s'))
  | inr (inr (o, w, a)) ↦
      let s = scan_back_le is_word_byte b n in
      rw
        (
          past_word-word (get_or b n 0) (before n b) o w a,
          skip-before is_word_byte n b,
          length-before (scan_back is_word_byte b n) b,
          scan_back-stop is_whitespace b n w,
          scan_back-on is_word_byte b n a,
        )
        (ground (arith, s))
]

pub previous_word_boundary_lem :
    (l : InputLine) → IsValid l → previous_word_boundary l ≡ word_left (view l)
unfolding previous_word_boundary scanned_back
previous_word_boundary_lem l v =
    rw (before-take l.cursor l.len l.bytes v.inside) (go l.bytes l.cursor)
  where
    go :
        (b : Bytes) (c : ℕ)
        → (if c == 0 then 0 else scanned_back b c) ≡ length (past_word (before c b))
    go b zero = refl
    go b (suc n) = let t : (suc n == 0) ≡ false = ground arith in rw t (scanned_back_lem b n)

-- The text from a position on, read from the buffer.
abbrev after : Bytes → ℕ → ℕ → Bytes
after b position zero = []
after b position (suc n) = get_or b position 0 ∷ after b (suc position) n

length-after : (b : Bytes) (position n : ℕ) → length (after b position n) ≡ n
length-after b position zero = refl
length-after b position (suc n) = ap suc (length-after b (suc position) n)

scan_on_bounds :
    (p : ℕ → Bool) (b : Bytes) (position n : ℕ)
    → (position ≤ scan_on p b position n) × (scan_on p b position n ≤ position + n)
scan_on_bounds p b position zero = (omega arith, omega arith)
scan_on_bounds p b position (suc n) =
    let ih = scan_on_bounds p b (suc position) n in
    elim (Bool-cases (p (get_or b position 0))) [
      | inl e ↦ rw e (omega (arith, ih), omega (arith, ih))
      | inr e ↦ rw e (omega arith, omega arith)
    ]

skip-after :
    (p : ℕ → Bool) (b : Bytes) (position n : ℕ)
    → let stop = scan_on p b position n in
      skip p (after b position n) ≡ after b stop ((position + n) - stop)
skip-after p b position zero = let e : position + 0 - position ≡ 0 = omega arith in rw e refl
skip-after p b position (suc n) = elim (Bool-cases (p (get_or b position 0))) [
  | inl e ↦
      let q : position + suc n ≡ suc position + n = omega arith in
      rw (e, q) (skip-after p b (suc position) n)
  | inr e ↦ let q : position + suc n - position ≡ suc n = omega arith in rw (e, q) refl
]

get_or-after :
    (b : Bytes) (position n i : ℕ)
    → i < n
    → get_or (after b position n) i 0 ≡ get_or b (position + i) 0
get_or-after b position zero i h = absurd (omega arith)
get_or-after b position (suc n) zero h = ap (λ j. get_or b j 0) (omega arith)
get_or-after b position (suc n) (suc i) h =
    get_or-after b (suc position) n i (omega arith) ∙ ap (λ j. get_or b j 0) (omega arith)

drop-take :
    (b : Bytes) (position n : ℕ)
    → position ≤ n
    → n ≤ length b
    → drop position (take n b) ≡ after b position (n - position)
drop-take b position n h h' =
    let size = length-after b position (n - position) in
    let size' = length-drop position (take n b) in
    let size'' = length-take n b in
    bytes_ext (drop position (take n b)) (after b position (n - position)) (omega arith) (λ i q.
      rw
        (
          get_or-drop position (take n b) i,
          get_or-take n b (position + i) (omega arith),
          get_or-after b position (n - position) i (omega arith),
        )
        refl)

module _ (p : ℕ → Bool) (b : Bytes) (position n : ℕ) where
  scan_on-on :
      p (get_or b position 0) ≡ true → scan_on p b position (suc n) ≡ scan_on p b (suc position) n
  scan_on-on e = rw e refl

  scan_on-stop : p (get_or b position 0) ≡ false → scan_on p b position (suc n) ≡ position
  scan_on-stop e = rw e refl

-- The scans of `next_word_boundary` from a cursor before the end.
scanned_on : Bytes → ℕ → ℕ → ℕ
scanned_on b len c =
    let blanks = scan_on is_whitespace b c (len - c) in
    let position = scan_on is_word_byte b blanks (len - blanks) in
    let position' =
      if position == c then scan_on is_other b position (len - position) else position in
    if position' == c then min (position' + 1) len else position'

scanned_on_lem :
    (b : Bytes) (len c n : ℕ)
    → len ≡ suc c + n
    → scanned_on b len c ≡ len - length (past_word (after b c (suc n)))
unfolding scanned_on
scanned_on_lem b len c n e =
    let q : len - c ≡ suc n = omega arith in
    let x = get_or b c 0 in
    let xs = after b (suc c) n in
    elim (byte_kinds x) [
      | inl (o, w, a) ↦
          let stop = scan_on is_other b (suc c) n in
          let s = scan_on_bounds is_other b (suc c) n in
          rw
            (
              past_word-other x xs o,
              skip-after is_other b (suc c) n,
              length-after b stop (suc c + n - stop),
              q,
              scan_on-stop is_whitespace b c n w,
              q,
              scan_on-stop is_word_byte b c n a,
              q,
              scan_on-on is_other b c n o,
            )
            (ground (arith, s))
      | inr (inl (o, w)) ↦
          let m = scan_on is_whitespace b (suc c) n in
          let s = scan_on_bounds is_whitespace b (suc c) n in
          let k : len - m ≡ suc c + n - m = omega arith in
          let stop = scan_on is_word_byte b m (suc c + n - m) in
          let s' = scan_on_bounds is_word_byte b m (suc c + n - m) in
          rw
            (
              past_word-blank x xs o w,
              skip-after is_whitespace b (suc c) n,
              skip-after is_word_byte b m (suc c + n - m),
              length-after b stop (m + (suc c + n - m) - stop),
              q,
              scan_on-on is_whitespace b c n w,
              k,
            )
            (ground (arith, s, s'))
      | inr (inr (o, w, a)) ↦
          let stop = scan_on is_word_byte b (suc c) n in
          let s = scan_on_bounds is_word_byte b (suc c) n in
          rw
            (
              past_word-word x xs o w a,
              skip-after is_word_byte b (suc c) n,
              length-after b stop (suc c + n - stop),
              q,
              scan_on-stop is_whitespace b c n w,
              q,
              scan_on-on is_word_byte b c n a,
            )
            (ground (arith, s))
    ]

boundary_on :
    (b : Bytes) (len c : ℕ)
    → c ≤ len
    → (if leb len c then len else scanned_on b len c)
      ≡ len - length (past_word (after b c (len - c)))
boundary_on b len c h = elim (Bool-cases (leb len c)) [
  | inl e ↦ let q : len - c ≡ 0 = ground arith in rw (e, q) (omega arith)
  | inr e ↦
      let n = len - suc c in
      let q : len ≡ suc c + n = ground arith in
      let q' : len - c ≡ suc n = omega arith in rw (e, q') (scanned_on_lem b len c n q)
]

pub next_word_boundary_lem :
    (l : InputLine) → IsValid l → next_word_boundary l ≡ word_right (view l)
unfolding next_word_boundary scanned_on
next_word_boundary_lem l v =
    rw (length-view l v, drop-take l.bytes l.cursor l.len v.inside (omega (arith, v.size, v.fits)))
      (boundary_on l.bytes l.len l.cursor v.inside)

length-skip : (p : ℕ → Bool) (xs : Bytes) → length (skip p xs) ≤ length xs
length-skip p [] = omega arith
length-skip p (x ∷ xs) = elim (Bool-cases (p x)) [
  | inl e ↦ rw (skip, e) (omega (arith, length-skip p xs))
  | inr e ↦ rw (skip, e) (omega arith)
]

length-past_word : (xs : Bytes) → length (past_word xs) ≤ length xs
length-past_word [] = omega arith
length-past_word (x ∷ xs) = elim (Bool-cases (is_other x)) [
  | inl e ↦ rw (past_word-other x xs e) (omega (arith, length-skip is_other xs))
  | inr e ↦
      rw (past_word, e)
        (omega (
          arith,
          length-skip is_whitespace (x ∷ xs),
          length-skip is_word_byte (skip is_whitespace (x ∷ xs)),
        ))
]

-- Both boundaries are inside the line.
pub boundaries_inside :
    (l : InputLine)
    → IsValid l
    → (word_left (view l) ≤ l.cursor)
      × (l.cursor ≤ word_right (view l))
      × (word_right (view l) ≤ l.len)
boundaries_inside l v =
    let b = take l.len l.bytes in
    let size = length-before l.cursor b in
    let size' = length-drop l.cursor b in
    let size'' = length-view l v in
    let q = length-past_word (before l.cursor b) in
    let q' = length-past_word (drop l.cursor b) in
    (omega (arith, size, q), omega (arith, size', size'', q', v.inside), omega (arith, size''))
