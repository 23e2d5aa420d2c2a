-- ===== src/Line/Moves.antt =====
-- kernel/src/main.rs: the moves of the cursor, and the edits by words.
use jing_os.Base.{
  ℕ, ◌+◌, ◌-◌, ◌≤◌, ◌<◌, ◌≡◌, refl, min, Bool, true, false, [], ltb, leb, ◌==◌, if◌then◌else◌,
  length, arith, Bool-cases, inl, inr,
}
use jing_os.Line.Buffer.{
  InputLine, move_to, move_left, move_right, move_home, move_end, move_word_left, move_word_right,
  delete_range, delete_word_left, delete_word_right, as_str,
}
use jing_os.Line.Spec.{replace, go, cut, word_left, word_right}
use jing_os.Line.Edits.{IsValid, view, Agrees, refused, length-view}
use jing_os.Line.Deletes.{taken_out, delete_range_refines}
use jing_os.Line.Words.{previous_word_boundary_lem, next_word_boundary_lem, boundaries_inside}

moved :
    (p : ℕ) (l : InputLine)
    → IsValid l
    → p ≤ l.len
    → Agrees (true, record l { cursor = p }) (true, record (view l) { position = p })
moved p l v h = record {
  answer = refl;
  text = refl;
  valid = record { size = v.size; fits = v.fits; inside = h; ascii = v.ascii };
}

pub move_to_refines :
    (p : ℕ) (l : InputLine) → IsValid l → p ≤ l.len → Agrees (move_to p l) (go p (view l))
move_to_refines p l v h = elim (Bool-cases (p == l.cursor)) [
  | inl e ↦ rw e (refused l v)
  | inr e ↦ rw e (moved p l v h)
]

-- A move guarded by another test than that of the position.
guarded :
    (test : Bool) (p q : ℕ) (l : InputLine)
    → IsValid l
    → ((test ≡ true) → q ≡ l.cursor)
    → ((test ≡ false) → (q ≡ p) × ((q == l.cursor) ≡ false) × (p ≤ l.len))
    → Agrees (if test then (false, l) else (true, record l { cursor = p })) (go q (view l))
guarded true p q l v stay move =
    let e : (q == l.cursor) ≡ true = ground (arith, stay refl) in rw e (refused l v)
guarded false p q l v stay move = let m = move refl in rw (m.1, m.0) (moved p l v m.2)

pub move_left_refines :
    (l : InputLine) → IsValid l → Agrees (move_left l) (go (l.cursor - 1) (view l))
unfolding move_left
move_left_refines l v =
    guarded (l.cursor == 0) (l.cursor - 1) (l.cursor - 1) l v (λ e. ground arith)
      (λ e. (refl, ground arith, ground (arith, v.inside)))

pub move_right_refines :
    (l : InputLine)
    → IsValid l
    → Agrees (move_right l) (go (min (l.cursor + 1) (length (as_str l))) (view l))
unfolding move_right
move_right_refines l v = rw (length-view l v) (
    guarded (leb l.len l.cursor) (l.cursor + 1) (min (l.cursor + 1) l.len) l v
      (λ e. ground (arith, v.inside)) (λ e. (ground arith, ground arith, ground arith)))

pub move_home_refines : (l : InputLine) → IsValid l → Agrees (move_home l) (go 0 (view l))
unfolding move_home
move_home_refines l v =
    guarded (l.cursor == 0) 0 0 l v (λ e. ground arith) (λ e. (refl, ground arith, omega arith))

pub move_end_refines :
    (l : InputLine) → IsValid l → Agrees (move_end l) (go (length (as_str l)) (view l))
unfolding move_end
move_end_refines l v = rw (length-view l v) (
    guarded (l.cursor == l.len) l.len l.len l v (λ e. ground arith)
      (λ e. (refl, ground arith, omega arith)))

pub move_word_left_refines :
    (l : InputLine) → IsValid l → Agrees (move_word_left l) (go (word_left (view l)) (view l))
unfolding move_word_left
move_word_left_refines l v =
    let b = boundaries_inside l v in
    rw (previous_word_boundary_lem l v)
      (move_to_refines (word_left (view l)) l v (omega (arith, b, v.inside)))

pub move_word_right_refines :
    (l : InputLine) → IsValid l → Agrees (move_word_right l) (go (word_right (view l)) (view l))
unfolding move_word_right
move_word_right_refines l v =
    rw (next_word_boundary_lem l v)
      (move_to_refines (word_right (view l)) l v (boundaries_inside l v).2)

pub delete_word_left_refines :
    (l : InputLine)
    → IsValid l
    → Agrees (delete_word_left l) (cut (word_left (view l)) l.cursor (view l))
unfolding delete_word_left
delete_word_left_refines l v =
    let b = boundaries_inside l v in
    let start = word_left (view l) in
    rw (previous_word_boundary_lem l v) (elim (Bool-cases (start == l.cursor)) [
      | inl e ↦ rw e (refused l v)
      | inr e ↦
          let strict : start < l.cursor = ground (arith, b) in
          rw e (delete_range_refines start l.cursor start l v strict v.inside refl)
    ])

delete_range_ahead :
    (l : InputLine)
    → IsValid l
    → (end : ℕ) → l.cursor < end
    → end ≤ l.len
    → Agrees (true, delete_range l.cursor end l) (replace l.cursor end [] (view l))
unfolding delete_range
delete_range_ahead l v end h h' =
    let e : ((end - l.cursor) == 0) ≡ false = ground arith in
    let e' : ltb (l.len - (end - l.cursor)) l.cursor ≡ false = ground arith in
    rw (e, e')
      (taken_out l.cursor end (end - l.cursor) (l.len - (end - l.cursor)) l.cursor l v h h' refl
        refl refl)

pub delete_word_right_refines :
    (l : InputLine)
    → IsValid l
    → Agrees (delete_word_right l) (cut l.cursor (word_right (view l)) (view l))
unfolding delete_word_right
delete_word_right_refines l v =
    let b = boundaries_inside l v in
    let end = word_right (view l) in
    rw (next_word_boundary_lem l v) (elim (Bool-cases (end == l.cursor)) [
      | inl e ↦ let e' : (l.cursor == end) ≡ true = ground arith in rw (e, e') (refused l v)
      | inr e ↦
          let e' : (l.cursor == end) ≡ false = ground arith in
          let strict : l.cursor < end = ground (arith, b) in
          rw (e, e') (delete_range_ahead l v end strict b.2)
    ])
