-- ===== src/Recall/Refine.antt =====
-- kernel/src/main.rs: every sequence of calls of the history does what the specification says.
use jing_os.Base.{
  ℕ, zero, suc, ◌+◌, ◌-◌, ◌%◌, ◌≤◌, ◌<◌, ◌≡◌, refl, ap, ◌∙◌, min, Option, none, some, List, [], ◌∷◌,
  ltb, leb, ◌==◌, if◌then◌else◌, length, get_or, set, take, replicate, get_or-set_self, length-set,
  length-take, Bytes, arith, Bool-cases, inl, inr,
}
use jing_os.Line.Buffer.{InputLine, is_empty}
use jing_os.Line.Buffer
use jing_os.Line.Spec.{empty}
use jing_os.Line.Edits
use jing_os.Line.Refine.{Edit, apply_all, meanings, line_refines, line-IsValid}
use jing_os.Line.Shifts.{length-copy_at}
use jing_os.Recall.Ring.{
  HistoryEntry, CommandHistory, blank, as_str, new, entry_by_age, set_from_line, push_line,
  is_entry, next_age, previous, next, reset_browsing,
}
use jing_os.Recall.Spec.{Recalled, nothing, nth, is_newest, remember, older, older_age, newer}
use jing_os.Recall.Ages.{
  lines_from, length-lines_from, take-lines_from, nth-lines_from, index_of-zero, lines_from-insert,
  set_from_line_text,
}

pub record IsValid (h : CommandHistory) : Type 0 where
  pub size : length h.entries ≡ 16
  pub sizes : (k : ℕ) → length (get_or h.entries k blank).bytes ≡ 128
  pub fits : h.len ≤ 16
  pub inside : h.next_insert < 16

abbrev pub view : CommandHistory → Recalled
view h = record { lines = lines_from h 0 h.len; browsing = h.browsing_age }

abbrev pub text : Option HistoryEntry → Option Bytes
text none = none
text (some e) = some (as_str e)

entry_by_age-nth :
    (age : ℕ) (h : CommandHistory) → text (entry_by_age age h) ≡ nth (lines_from h 0 h.len) age
unfolding entry_by_age
entry_by_age-nth age h = elim (Bool-cases (leb h.len age)) [
  | inl e ↦ rw (nth-lines_from h 0 h.len age, e) refl
  | inr e ↦ let e' : 0 + age ≡ age = omega arith in rw (nth-lines_from h 0 h.len age, e', e) refl
]

is_entry-text : (s : Bytes) (o : Option HistoryEntry) → is_entry s o ≡ is_newest s (text o)
is_entry-text s none = refl
is_entry-text s (some e) = refl

-- The lines after an insertion.
inserted :
    (l : InputLine) (h h' : CommandHistory)
    → IsValid h
    → Edits.IsValid l
    → h'.entries
      ≡ set h.entries h.next_insert (set_from_line l (get_or h.entries h.next_insert blank))
    → h'.next_insert ≡ (h.next_insert + 1) % 16
    → h'.len ≡ min (suc h.len) 16
    → lines_from h' 0 h'.len ≡ take 16 (Buffer.as_str l ∷ lines_from h 0 h.len)
inserted l h h' v w e n m =
    let slot = get_or h.entries h.next_insert blank in
    let a : h'.len ≡ suc (min 15 h.len) = omega arith in
    let t =
      set_from_line_text l slot (omega (arith, w.size, w.fits))
        (omega (arith, v.sizes h.next_insert, w.fits)) in
    let at =
      get_or-set_self h.entries h.next_insert (set_from_line l slot) blank
        (omega (arith, v.size, v.inside)) in
    rw
      (
        a,
        lines_from-insert h h' (set_from_line l slot) 0 (min 15 h.len) v.inside e n (omega arith),
        take-lines_from h 15 0 h.len,
        e,
        n,
        index_of-zero h.next_insert v.inside,
        at,
        t,
      )
      refl

set-sizes :
    (es : List HistoryEntry) (i k : ℕ) (e : HistoryEntry)
    → length e.bytes ≡ 128
    → ((j : ℕ) → length (get_or es j blank).bytes ≡ 128)
    → length (get_or (set es i e) k blank).bytes ≡ 128
set-sizes [] i k e q h = h k
set-sizes (x ∷ xs) zero zero e q h = q
set-sizes (x ∷ xs) zero (suc k) e q h = h (suc k)
set-sizes (x ∷ xs) (suc i) zero e q h = h 0
set-sizes (x ∷ xs) (suc i) (suc k) e q h = set-sizes xs i k e q (λ j. h (suc j))

-- The history after an insertion.
abbrev insertion : InputLine → CommandHistory → CommandHistory
insertion l h = record {
  entries = set h.entries h.next_insert (set_from_line l (get_or h.entries h.next_insert blank));
  len = if ltb h.len 16 then h.len + 1 else h.len;
  next_insert = (h.next_insert + 1) % 16;
  browsing_age = none;
}

module _ (l : InputLine) (h : CommandHistory) (v : IsValid h) where
  insertion-IsValid : IsValid (insertion l h)
  insertion-IsValid =
      let slot = get_or h.entries h.next_insert blank in
      record {
        size = length-set h.entries h.next_insert (set_from_line l slot) ∙ v.size;
        sizes = λ k.
            set-sizes h.entries h.next_insert k (set_from_line l slot)
              (length-copy_at 0 (Buffer.as_str l) slot.bytes ∙ v.sizes h.next_insert) v.sizes;
        fits = ground (arith, v.fits);
        inside = omega arith;
      }

  same_test :
      (s : Bytes) → is_entry s (entry_by_age 0 h) ≡ is_newest s (nth (lines_from h 0 h.len) 0)
  same_test s = is_entry-text s (entry_by_age 0 h) ∙ ap (is_newest s) (entry_by_age-nth 0 h)

  pub push_line_refines :
      Edits.IsValid l
      → (view (push_line l h) ≡ remember (Buffer.as_str l) (view h)) × IsValid (push_line l h)
  unfolding push_line
  push_line_refines w =
      let s = Buffer.as_str l in
      let size : length s ≡ l.len = omega (arith, length-take l.len l.bytes, w.size, w.fits) in
      let n : (if ltb h.len 16 then h.len + 1 else h.len) ≡ min (suc h.len) 16 =
        ground (arith, v.fits) in
      elim (Bool-cases (l.len == 0)) [
        | inl e ↦ rw (size, e) (refl, v)
        | inr e ↦ elim (Bool-cases (is_newest s (nth (lines_from h 0 h.len) 0))) [
          | inl f ↦
              rw (size, e, same_test s, f)
                (refl, record { size = v.size; sizes = v.sizes; fits = v.fits; inside = v.inside })
          | inr f ↦
              rw (size, e, same_test s, f)
                (
                  ap (λ ls. record { lines = ls; browsing = none })
                      (inserted l h (insertion l h) v w refl refl n),
                  insertion-IsValid,
                )
        ]
      ]

same_age : (b : Option ℕ) (n : ℕ) → older_age b n ≡ next_age b n
same_age none n = refl
same_age (some age) n = refl

module _ (h : CommandHistory) (v : IsValid h) where
  pub browsed : (b : Option ℕ) → IsValid (record h { browsing_age = b })
  browsed b = record { size = v.size; sizes = v.sizes; fits = v.fits; inside = v.inside }

  pub previous_refines :
      (text (previous h).0 ≡ (older (view h)).0)
      × (view (previous h).1 ≡ (older (view h)).1)
      × IsValid (previous h).1
  unfolding previous
  previous_refines =
      let age = next_age h.browsing_age h.len in
      elim (Bool-cases (h.len == 0)) [
        | inl e ↦ rw (length-lines_from h 0 h.len, e) (refl, refl, v)
        | inr e ↦
            rw (length-lines_from h 0 h.len, e, same_age h.browsing_age h.len)
              (
                entry_by_age-nth age (record h { browsing_age = some age }),
                refl,
                browsed (some age),
              )
      ]

  next_at :
      (b : Option ℕ)
      → let h' = record h { browsing_age = b } in
        (text (next h').0 ≡ (newer (view h')).0)
        × (view (next h').1 ≡ (newer (view h')).1)
        × IsValid (next h').1
  unfolding next
  next_at none = (refl, refl, browsed none)
  next_at (some age) = elim (Bool-cases (age == 0)) [
    | inl f ↦ rw f (refl, refl, browsed none)
    | inr f ↦ rw f (
      entry_by_age-nth (age - 1) (record h { browsing_age = some (age - 1) }),
      refl,
      browsed (some (age - 1)),
    )
  ]

  pub next_refines :
      (text (next h).0 ≡ (newer (view h)).0)
      × (view (next h).1 ≡ (newer (view h)).1)
      × IsValid (next h).1
  next_refines = next_at h.browsing_age

-- What the monitor calls; a pushed line is one that edits have made.
pub data Event : Type 0 where
  enters : List Edit → Event
  goes_older goes_newer resets : Event

abbrev pub run : List Event → CommandHistory → List (Option Bytes) × CommandHistory
run [] h = ([], h)
run (enters es ∷ rest) h = run rest (push_line (apply_all es Buffer.new).1 h)
run (goes_older ∷ rest) h =
    let (e, h') = previous h in let (answers, last) = run rest h' in (text e ∷ answers, last)
run (goes_newer ∷ rest) h =
    let (e, h') = next h in let (answers, last) = run rest h' in (text e ∷ answers, last)
run (resets ∷ rest) h = run rest (reset_browsing h)

abbrev pub run_spec : List Event → Recalled → List (Option Bytes) × Recalled
run_spec [] r = ([], r)
run_spec (enters es ∷ rest) r = run_spec rest (remember (meanings es empty).1.content r)
run_spec (goes_older ∷ rest) r =
    let (e, r') = older r in let (answers, last) = run_spec rest r' in (e ∷ answers, last)
run_spec (goes_newer ∷ rest) r =
    let (e, r') = newer r in let (answers, last) = run_spec rest r' in (e ∷ answers, last)
run_spec (resets ∷ rest) r = run_spec rest (record r { browsing = none })

run_valid_refines :
    (es : List Event) (h : CommandHistory)
    → IsValid h
    → ((run es h).0 ≡ (run_spec es (view h)).0) × (view (run es h).1 ≡ (run_spec es (view h)).1)
run_valid_refines [] h v = (refl, refl)
run_valid_refines (enters es ∷ rest) h v =
    let (e, v') = push_line_refines (apply_all es Buffer.new).1 h v (line-IsValid es) in
    let ih = run_valid_refines rest (push_line (apply_all es Buffer.new).1 h) v' in
    rw (run, run_spec, ← (line_refines es).1, ← e) ih
run_valid_refines (goes_older ∷ rest) h v =
    let (a, e, v') = previous_refines h v in
    let ih = run_valid_refines rest (previous h).1 v' in
    rw (run, run_spec, ← a, ← e, ih.0) (refl, ih.1)
run_valid_refines (goes_newer ∷ rest) h v =
    let (a, e, v') = next_refines h v in
    let ih = run_valid_refines rest (next h).1 v' in rw (run, run_spec, ← a, ← e, ih.0) (refl, ih.1)
run_valid_refines (resets ∷ rest) h v = run_valid_refines rest (reset_browsing h) (browsed h v none)

pub new-IsValid : IsValid new
new-IsValid = record { size = refl; sizes = blanks 16; fits = omega arith; inside = omega arith }
  where
    blanks : (n k : ℕ) → length (get_or (replicate n blank) k blank).bytes ≡ 128
    blanks zero k = refl
    blanks (suc n) zero = refl
    blanks (suc n) (suc k) = blanks n k

-- The history keeps the last sixteen lines, the newest first, and none that is empty or equal to the
-- one entered just before. Every sequence of lines entered, of steps to an older or a newer line and
-- of resets, from the empty history, gives back the lines that the specification does.
pub history_refines :
    (es : List Event)
    → ((run es new).0 ≡ (run_spec es nothing).0) × (view (run es new).1 ≡ (run_spec es nothing).1)
history_refines es = run_valid_refines es new new-IsValid
